-- ===== src/Protection/Manager/Requirements.antt =====
-- What `require` adds to `check`.
use optorch.Base.{
  ◌≡◌, refl, ap, true, false, Bool, String, Option, none, some, Outcome, ok, raise, ◌==◌, if_both,
}
use optorch.Protection.Enforcement.{
  EnforcementResult, Failure, Strategy, builtins, block, interactive, route, route_to, no_fallback,
  warn,
}
use optorch.Protection.Manager.{
  ProtectionManager, check, check_rule, decide, enforce, require, require_result,
}
use optorch.Protection.Manager.Decisions.{strategy_of, enforce-ok}
use optorch.Protection.Rules.{ProtectionConfig, get_protection}

module _ {E W : Type 0} (manager : ProtectionManager E W) (t i a : String) where
  -- `require` passes the answer on
  abbrev Passes : Outcome (Failure E) EnforcementResult → Type 0
  Passes answer = require_result manager t i a answer ≡ answer

  Passes-block : (p : ProtectionConfig) (decision : Bool) → Passes (block p decision)
  unfolding require_result block
  Passes-block p true = refl
  Passes-block p false = refl

  Passes-interactive : (p : ProtectionConfig) (decision : Bool) → Passes (interactive p decision)
  unfolding require_result interactive
  Passes-interactive p true = refl
  Passes-interactive p false = refl

  Passes-route_to : (p : ProtectionConfig) (fallback : Option String) → Passes (route_to p fallback)
  unfolding require_result route_to no_fallback
  Passes-route_to p none = refl
  Passes-route_to p (some fallback) =
      if_both Passes (fallback == "") (no_fallback p) _ (λ _. refl) (λ _. refl)

  Passes-route : (p : ProtectionConfig) (decision : Bool) → Passes (route p decision)
  unfolding require_result route
  Passes-route p true = refl
  Passes-route p false = Passes-route_to p p.fallback

  Passes-warn : (p : ProtectionConfig) (decision : Bool) → Passes (warn p decision)
  unfolding require_result warn
  Passes-warn p true = refl
  Passes-warn p false = refl

  Passes-strategy_of :
      (name : String) (p : ProtectionConfig) (decision : Bool)
      → Passes (strategy_of name p decision)
  unfolding strategy_of
  Passes-strategy_of name p decision =
      let P : Strategy E → Type 0 = λ s. Passes (s p decision) in
      if_both P ("block" == name) block _ (λ _. Passes-block p decision)
        (λ _.
          if_both P ("interactive" == name) interactive _ (λ _. Passes-interactive p decision)
            (λ _.
              if_both P ("route" == name) route _ (λ _. Passes-route p decision)
                (λ _.
                  if_both P ("warn" == name) warn block (λ _. Passes-warn p decision)
                    (λ _. Passes-block p decision))))

  Passes-enforce :
      manager.enforcement ≡ builtins
      → (p : ProtectionConfig) (answer : Outcome E Bool) → Passes (enforce manager p answer)
  unfolding require_result enforce
  Passes-enforce builtin p (raise problem) = refl
  Passes-enforce builtin p (ok decision) =
      rw (enforce-ok manager builtin p decision) (Passes-strategy_of p.enforcement p decision)

  Passes-check_rule :
      manager.enforcement ≡ builtins
      → (rule : Option ProtectionConfig) (action : String) (world : W)
      → Passes (check_rule manager rule action world).0
  unfolding check_rule require_result
  Passes-check_rule builtin none action world = refl
  Passes-check_rule builtin (some p) action world =
      Passes-enforce builtin p (decide manager p action world).0

-- With the strategies that the framework registers, `require` returns or raises what `check` does: its
-- own `AuthorizationError`, for a denial whose result asks to raise, is never raised.
pub require-check :
    {E W : Type 0} (manager : ProtectionManager E W)
    → manager.enforcement ≡ builtins
    → (resource_type resource_id action : String) (world : W)
    → require manager resource_type resource_id action world
      ≡ check manager resource_type resource_id action world
unfolding require check
require-check manager builtin t i a world =
    let rule = get_protection t i a manager.protections in
    ap (λ answer. (answer, (check_rule manager rule a world).1))
      (Passes-check_rule manager t i a builtin rule a world)
