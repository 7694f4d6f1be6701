-- ===== src/Protection/Enforcement.antt =====
-- identity/protection/enforcement.py: what follows a denial.
use optorch.Base.{
  Bool, true, false, String, [], Option, none, some, Outcome, ok, raise, if◌then◌else◌, ◌==◌,
}
use optorch.Base.Dict
use optorch.Base.Dict.{Dict}
use optorch.Base.Texts.{◌<>◌}
use optorch.Registry
use optorch.Registry.{RegistryError}
use optorch.Protection.Rules.{ProtectionConfig}

-- the keys of the dict `form`
pub record Form : Type 0 where
  pub form_type : String
  pub resource : String
  pub action : String
  pub approver_role : Option String
  pub description : Option String

pub record EnforcementResult : Type 0 where
  pub allowed : Bool
  pub action : Option String
  pub route_to : Option String
  pub form : Option Form
  pub warning : Option String

-- the keys of the dict `details`
pub record Details : Type 0 where
  pub resource_id : String
  pub permission : String
  pub enforcement : String

pub record AuthorizationError : Type 0 where
  pub message : String
  pub resource : String
  pub action : String
  pub details : Option Details

-- What a check may raise: a denial, a `KeyError`, or what the identity manager raises.
pub data Failure (E : Type 0) : Type 0 where
  denied : AuthorizationError → Failure E
  no_key : RegistryError → Failure E
  failed : E → Failure E

-- A strategy handles one decision.
abbrev pub Strategy : Type 0 → Type 0
Strategy E = ProtectionConfig → Bool → Outcome (Failure E) EnforcementResult

abbrev pub allow : EnforcementResult
allow = record { allowed = true; action = none; route_to = none; form = none; warning = none }

unfoldable pub warning_msg : ProtectionConfig → String
warning_msg protection =
    "permission denied but allowing access: " <> protection.permission <> " for "
    <> protection.resource_type <> ":" <> protection.resource_id

module _ {E : Type 0} where
  unfoldable pub block : Strategy E
  block protection true = ok allow
  block protection false = raise (
      denied record {
        message = "Permission denied: " <> protection.permission;
        resource = protection.resource_type;
        action = protection.action;
        details = some record {
          resource_id = protection.resource_id;
          permission = protection.permission;
          enforcement = "block";
        };
      })

  unfoldable pub interactive : Strategy E
  interactive protection true = ok allow
  interactive protection false = ok record {
    allowed = false;
    action = some "interact";
    route_to = none;
    form = some record {
      form_type = "permission_approval";
      resource = protection.resource_id;
      action = protection.action;
      approver_role = protection.approver_role;
      description = protection.description;
    };
    warning = none;
  }

  unfoldable pub no_fallback : ProtectionConfig → Outcome (Failure E) EnforcementResult
  no_fallback protection = raise (
      denied record {
        message = "Permission denied: " <> protection.permission;
        resource = protection.resource_type;
        action = protection.action;
        details = none;
      })

  unfoldable pub route_to : ProtectionConfig → Option String → Outcome (Failure E) EnforcementResult
  route_to protection none = no_fallback protection
  route_to protection (some fallback) =
      if fallback == ""
      then no_fallback protection
      else ok record {
        allowed = false;
        action = some "route";
        route_to = some fallback;
        form = none;
        warning = none;
      }

  unfoldable pub route : Strategy E
  route protection true = ok allow
  route protection false = route_to protection protection.fallback

  unfoldable pub warn : Strategy E
  warn protection true = ok allow
  warn protection false = ok record {
    allowed = true;
    action = some "warn";
    route_to = none;
    form = none;
    warning = some (warning_msg protection);
  }

  -- `EnforcementRegistry()`
  unfoldable pub builtins : Dict (Strategy E)
  unfolding Registry.register Dict.insert
  builtins = Registry.register "warn" warn (
      Registry.register "route" route
        (Registry.register "interactive" interactive (Registry.register "block" block [])))

  unfoldable pub found_or_block :
      Option (Strategy E) → Dict (Strategy E) → Outcome RegistryError (Strategy E)
  found_or_block none items = Registry.get "block" items
  found_or_block (some strategy) items = ok strategy

  unfoldable pub get_strategy : String → Dict (Strategy E) → Outcome RegistryError (Strategy E)
  get_strategy name items = found_or_block (Registry.get_optional name items) items
