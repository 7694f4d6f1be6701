-- ===== src/Protection/Rules.antt =====
-- identity/protection/config.py and registry.py: the rules of protected resources, by key.
pub mod Keys
pub mod Listed
pub mod Loading
use optorch.Base.{
  Bool, Outcome, ok, raise, ◌>>=◌, false, String, List, [], ◌∷◌, Option, none, some, if◌then◌else◌,
  ◌==◌,
}
use optorch.Base.Dict.{Dict}
use optorch.Base.Texts.{◌<>◌}
use optorch.Registry
use optorch.Registry.{RegistryError, not_registered}

pub record ProtectionConfig : Type 0 where
  pub resource_type : String
  pub resource_id : String
  pub action : String
  pub permission : String
  pub description : Option String
  pub ui_hint : Option String
  pub enforcement : String
  pub fallback : Option String
  pub interactive_approval : Bool
  pub approver_role : Option String

unfoldable pub key_of : String → String → String → String
key_of resource_type resource_id action = resource_type <> ":" <> resource_id <> ":" <> action

-- `register` with its key override
unfoldable pub register :
    ProtectionConfig → Option String → Dict ProtectionConfig → Dict ProtectionConfig
register item none items =
    Registry.register (key_of item.resource_type item.resource_id item.action) item items
register item (some key) items = Registry.register key item items

unfoldable pub get_protection :
    String → String → String → Dict ProtectionConfig → Option ProtectionConfig
get_protection resource_type resource_id action items =
    Registry.get_optional (key_of resource_type resource_id action) items

unfoldable pub is_protected : String → String → String → Dict ProtectionConfig → Bool
is_protected resource_type resource_id action items =
    Registry.has (key_of resource_type resource_id action) items

unfoldable pub list_by_type : String → Dict ProtectionConfig → List ProtectionConfig
list_by_type resource_type [] = []
list_by_type resource_type ((key, config) ∷ items) =
    let rest = list_by_type resource_type items in
    if config.resource_type == resource_type then config ∷ rest else rest

abbrev pub register_protection : ProtectionConfig → Dict ProtectionConfig → Dict ProtectionConfig
register_protection config items =
    register config (some (key_of config.resource_type config.resource_id config.action)) items

-- rules registered one after the other
unfoldable pub register_all : List ProtectionConfig → Dict ProtectionConfig → Dict ProtectionConfig
register_all [] items = items
register_all (config ∷ configs) items = register_all configs (register_protection config items)

-- one rule of the configuration, a dict in which any key may be missing
pub record RawRule : Type 0 where
  pub raw_resource_id : Option String
  pub raw_action : Option String
  pub raw_permission : Option String
  pub raw_enforcement : Option String
  pub raw_description : Option String
  pub raw_ui_hint : Option String
  pub raw_fallback : Option String
  pub raw_interactive_approval : Option Bool
  pub raw_approver_role : Option String

-- `rule[key]`
abbrev pub required : String → Option String → Outcome RegistryError String
required key none = raise (not_registered key)
required key (some value) = ok value

-- `rule.get(key, value)`
abbrev pub default {ℓ} : {A : Type ℓ} → A → Option A → A
default value none = value
default value (some given) = given

-- the arguments of `register_protection` for a rule
unfoldable pub rule_config : String → RawRule → Outcome RegistryError ProtectionConfig
rule_config resource_type rule = required "resource_id" rule.raw_resource_id >>= λ resource_id.
    required "action" rule.raw_action >>= λ action.
    required "permission" rule.raw_permission >>= λ permission. ok record {
      resource_type = resource_type;
      resource_id = resource_id;
      action = action;
      permission = permission;
      description = rule.raw_description;
      ui_hint = rule.raw_ui_hint;
      enforcement = default "block" rule.raw_enforcement;
      fallback = rule.raw_fallback;
      interactive_approval = default false rule.raw_interactive_approval;
      approver_role = rule.raw_approver_role;
    }

abbrev pub Loaded : Type 0
Loaded = Outcome RegistryError (Unit {0}) × Dict ProtectionConfig

-- the loop goes on with the rules that follow unless a key was missing
unfoldable pub load_next :
    Outcome RegistryError ProtectionConfig
    → (Dict ProtectionConfig → Loaded)
    → Dict ProtectionConfig
    → Loaded
load_next (raise problem) next items = (raise problem, items)
load_next (ok config) next items = next (register_protection config items)

unfoldable pub load_rules :
    String → List RawRule → (Dict ProtectionConfig → Loaded) → Dict ProtectionConfig → Loaded
load_rules resource_type [] next items = next items
load_rules resource_type (rule ∷ rules) next items =
    load_next (rule_config resource_type rule) (load_rules resource_type rules next) items

unfoldable pub load_from_config : List (String × List RawRule) → Dict ProtectionConfig → Loaded
load_from_config [] items = (ok tt, items)
load_from_config ((resource_type, rules) ∷ types) items =
    load_rules resource_type rules (load_from_config types) items
