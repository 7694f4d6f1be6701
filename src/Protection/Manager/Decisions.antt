-- ===== src/Protection/Manager/Decisions.antt =====
-- What checks decide with the strategies that the framework registers.
use optorch.Base.{
  ◌≡◌, refl, ap, ◌∙◌, true, false, Bool, ◌||◌, String, Option, none, some, Outcome, ok, raise,
  arith, if◌then◌else◌, ◌==◌, eq_iff, if_both,
}
use optorch.Base.Dict
use optorch.Base.Dict.{Dict}
use optorch.Registry
use optorch.Protection.Enforcement.{
  EnforcementResult, Failure, Strategy, builtins, get_strategy, found_or_block, block, interactive,
  route, route_to, no_fallback, warn,
}
use optorch.Protection.Manager.{ProtectionManager, check, check_rule, decide, enforce, enforce_with}
use optorch.Protection.Rules.{ProtectionConfig, get_protection}

module _ {E : Type 0} where
  unfoldable pub grants : Outcome (Failure E) EnforcementResult → Bool
  grants (raise problem) = false
  grants (ok result) = result.allowed

  -- the strategy of a name, without a registry
  unfoldable pub strategy_of : String → Strategy E
  strategy_of name =
      if "block" == name
      then block
      else if "interactive" == name
      then interactive
      else if "route" == name
      then route
      else if "warn" == name
      then warn
      else block

  get_strategy-builtins : (name : String) → get_strategy name builtins ≡ ok (strategy_of name)
  unfolding get_strategy found_or_block builtins Registry.get_optional Registry.register
      Registry.get Dict.get Dict.insert strategy_of
  get_strategy-builtins name = ground arith

module _ (E : Type 0) where
  grants-block :
      (p : ProtectionConfig) (decision : Bool) → grants (block {E = E} p decision) ≡ decision
  unfolding grants block
  grants-block p true = refl
  grants-block p false = refl

  grants-interactive :
      (p : ProtectionConfig) (decision : Bool) → grants (interactive {E = E} p decision) ≡ decision
  unfolding grants interactive
  grants-interactive p true = refl
  grants-interactive p false = refl

  grants-route_to :
      (p : ProtectionConfig) (fallback : Option String)
      → grants (route_to {E = E} p fallback) ≡ false
  unfolding grants route_to no_fallback
  grants-route_to p none = refl
  grants-route_to p (some fallback) = ground arith

  grants-route :
      (p : ProtectionConfig) (decision : Bool) → grants (route {E = E} p decision) ≡ decision
  unfolding grants route
  grants-route p true = refl
  grants-route p false = grants-route_to p p.fallback

  grants-warn : (p : ProtectionConfig) (decision : Bool) → grants (warn {E = E} p decision) ≡ true
  unfolding grants warn
  grants-warn p true = refl
  grants-warn p false = refl

-- a name that is not "warn" leaves the decision as it is
not_warn :
    (name key : String) (decision : Bool)
    → (key == name) ≡ true
    → ("warn" == key) ≡ false
    → decision ≡ (decision || "warn" == name)
not_warn name key decision h differs = rw (← (eq_iff key name).0 h, differs) (or_false decision)
  where
    or_false : (b : Bool) → b ≡ (b || false)
    or_false true = refl
    or_false false = refl

module _ (E : Type 0) (name : String) (p : ProtectionConfig) (decision : Bool) where
  abbrev IsPlain : Strategy E → Type 0
  IsPlain s = grants (s p decision) ≡ (decision || "warn" == name)

  grants-strategy_of : IsPlain (strategy_of name)
  unfolding strategy_of
  grants-strategy_of =
      if_both IsPlain ("block" == name) block _
        (λ h. grants-block E p decision ∙ not_warn name "block" decision h refl)
        (λ _.
          if_both IsPlain ("interactive" == name) interactive _
            (λ h. grants-interactive E p decision ∙ not_warn name "interactive" decision h refl)
            (λ _.
              if_both IsPlain ("route" == name) route _
                (λ h. grants-route E p decision ∙ not_warn name "route" decision h refl)
                (λ _.
                  if_both IsPlain ("warn" == name) warn block
                    (λ h. grants-warn E p decision ∙ ground (arith, h))
                    (λ h. grants-block E p decision ∙ ground (arith, h)))))

unfoldable pub granted_by : {E : Type 0} → ProtectionConfig → Outcome E Bool → Bool
granted_by p (raise problem) = false
granted_by p (ok decision) = decision || "warn" == p.enforcement

module _ {E W : Type 0} (manager : ProtectionManager E W) where
  -- whether access is granted, from the rule and the identity manager's answer
  unfoldable pub granted : Option ProtectionConfig → String → W → Bool
  granted none action world = true
  granted (some p) action world = granted_by p (decide manager p action world).0

module _ {E W : Type 0} (manager : ProtectionManager E W)
    (builtin : manager.enforcement ≡ builtins) where
  pub enforce-ok :
      (p : ProtectionConfig) (decision : Bool)
      → enforce manager p (ok decision) ≡ strategy_of p.enforcement p decision
  unfolding enforce enforce_with
  enforce-ok p decision = simp builtin (rw (get_strategy-builtins p.enforcement) refl)

  grants-check_rule :
      (rule : Option ProtectionConfig) (action : String) (world : W)
      → grants (check_rule manager rule action world).0 ≡ granted manager rule action world
  unfolding check_rule granted granted_by enforce grants
  grants-check_rule none action world = refl
  grants-check_rule (some p) action world = go (decide manager p action world).0
    where
      go : (answer : Outcome E Bool) → grants (enforce manager p answer) ≡ granted_by p answer
      go (raise problem) = refl
      go (ok decision) =
          ap grants (enforce-ok p decision) ∙ grants-strategy_of E p.enforcement p decision

  -- With the strategies that the framework registers, a check grants access exactly if no rule is
  -- registered for the resource and action, or the identity manager returns True, or it returns False
  -- and the enforcement of the rule is "warn"; where the identity manager raises, access is not granted.
  pub grants-check :
      (resource_type resource_id action : String) (world : W)
      → grants (check manager resource_type resource_id action world).0
        ≡ granted manager
            (get_protection resource_type resource_id action manager.protections)
            action
            world
  unfolding check
  grants-check resource_type resource_id action world =
      grants-check_rule (get_protection resource_type resource_id action manager.protections) action
        world
