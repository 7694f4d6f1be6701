-- ===== src/Protection/Manager.antt =====
-- identity/protection/manager.py. What the identity manager answers is a function that acts on a world
-- and may raise.
pub mod Accessible
pub mod Decisions
pub mod Requirements
use optorch.Base.{
  Bool, true, false, String, List, [], ◌∷◌, Option, none, some, Outcome, ok, raise, if◌then◌else◌,
  ◌==◌, not, ◌&&◌,
}
use optorch.Base.Dict.{Dict}
use optorch.Base.Texts.{◌<>◌}
use optorch.Registry.{RegistryError}
use optorch.Protection.Enforcement.{
  EnforcementResult, Failure, denied, failed, no_key, Strategy, allow, get_strategy,
}
use optorch.Protection.Permissions.{parse_permission, or_else}
use optorch.Protection.Rules.{ProtectionConfig, get_protection, list_by_type}

-- `ProtectionManager`; `check_permission resource action` is the identity manager's answer for the user.
pub record ProtectionManager (E W : Type 0) : Type 1 where
  pub check_permission : String → String → W → Outcome E Bool × W
  pub protections : Dict ProtectionConfig
  pub enforcement : Dict (Strategy E)

module _ {E W : Type 0} (manager : ProtectionManager E W) where
  abbrev pub Answer : Type 0
  Answer = Outcome (Failure E) EnforcementResult

  -- the question that a rule puts to the identity manager
  unfoldable pub decide : ProtectionConfig → String → W → Outcome E Bool × W
  decide protection action world =
      let (resource, perm_action) = parse_permission protection.permission in
      manager.check_permission resource (or_else perm_action action) world

  unfoldable pub enforce_with :
      Outcome RegistryError (Strategy E) → ProtectionConfig → Bool → Answer
  enforce_with (raise problem) protection decision = raise (no_key problem)
  enforce_with (ok strategy) protection decision = strategy protection decision

  unfoldable pub enforce : ProtectionConfig → Outcome E Bool → Answer
  enforce protection (raise problem) = raise (failed problem)
  enforce protection (ok decision) =
      enforce_with (get_strategy protection.enforcement manager.enforcement) protection decision

  unfoldable pub check_rule : Option ProtectionConfig → String → W → Answer × W
  check_rule none action world = (ok allow, world)
  check_rule (some protection) action world =
      let (decision, world) = decide protection action world in (enforce protection decision, world)

  unfoldable pub check : String → String → String → W → Answer × W
  check resource_type resource_id action world =
      check_rule (get_protection resource_type resource_id action manager.protections) action world

  abbrev pub is_raise : Option String → Bool
  is_raise none = false
  is_raise (some action) = action == "raise"

  unfoldable pub require_result : String → String → String → Answer → Answer
  require_result resource_type resource_id action (raise problem) = raise problem
  require_result resource_type resource_id action (ok result) =
      if not result.allowed && is_raise result.action
      then raise (
          denied record {
            message =
                "Permission denied: " <> action <> " on " <> resource_type <> ":" <> resource_id;
            resource = resource_type;
            action = action;
            details = none;
          })
      else ok result

  unfoldable pub require : String → String → String → W → Answer × W
  require resource_type resource_id action world =
      let (result, world) = check resource_type resource_id action world in
      (require_result resource_type resource_id action result, world)

  -- the loop of `get_accessible_resources` goes on unless the identity manager raised
  unfoldable pub prepend :
      ProtectionConfig
      → Bool
      → Outcome (Failure E) (List String) × W
      → Outcome (Failure E) (List String) × W
  prepend protection true (ok ids, world) = (ok (protection.resource_id ∷ ids), world)
  prepend protection true (raise problem, world) = (raise problem, world)
  prepend protection false rest = rest

  unfoldable pub collect :
      ProtectionConfig
      → Outcome E Bool × W
      → (W → Outcome (Failure E) (List String) × W)
      → Outcome (Failure E) (List String) × W
  collect protection (raise problem, world) rest = (raise (failed problem), world)
  collect protection (ok decision, world) rest = prepend protection decision (rest world)

  unfoldable pub accessible :
      List ProtectionConfig → String → W → Outcome (Failure E) (List String) × W
  accessible [] action world = (ok [], world)
  accessible (protection ∷ protections) action world =
      let rest : W → Outcome (Failure E) (List String) × W = λ w. accessible protections action w in
      if protection.action == action
      then collect protection (decide protection action world) rest
      else rest world

  unfoldable pub get_accessible_resources :
      String → String → W → Outcome (Failure E) (List String) × W
  get_accessible_resources resource_type action world =
      accessible (list_by_type resource_type manager.protections) action world
