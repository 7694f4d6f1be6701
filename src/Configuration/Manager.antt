-- ===== src/Configuration/Manager.antt =====
-- `ConfigManager` of config/manager.py: namespaces from the provider, with models, their defaults and overrides at run
-- time. The reload strategy asks for no reload here, and `set` does not persist. A file may be empty, so that a
-- namespace holds None.
mod Tests
pub mod Overrides
use Prim.Native.Nat.{Ordering, compare}
use Prim.Native.Char.{Char, code}
use Prim.Native.String as S
use optorch.Base.{
  ◌≡◌, refl, Bool, true, false, String, Option, none, some, Outcome, ok, raise, if◌then◌else◌, ◌==◌,
}
use optorch.Base.Dict
use optorch.Base.Dict.{Dict}
use optorch.Configuration.Merger.{
  Value, null, leaf, section, Fields, nil, field, is_dot, deep_get, deep_set, deep_merge,
}

-- what is raised: by a model, and the TypeError or AttributeError for a value that is no dict
pub data ConfigError (E : Type 0) : Type 0 where
  invalid : E → ConfigError E
  no_dict : ConfigError E

abbrev pub Result : Type 0 → Type 0
Result E = Outcome (ConfigError E) Value

-- the validation by a class of pydantic and its dump
abbrev pub Model : Type 0 → Type 0
Model E = Fields → Outcome E Value

pub record ConfigManager (E : Type 0) : Type 0 where
  pub configs : Dict (Option Fields)
  pub runtime_overrides : Dict Value
  pub models : Dict (Model E)
  pub extension_defaults : Dict Fields
  pub merged_models : Dict Value

-- `key_path.split(".", 1)`
abbrev put_first : Char → String × Option String → String × Option String
put_first c (namespace, rest) = (S.◌∷◌ c namespace, rest)

unfoldable pub split_first : String → String × Option String
split_first S.[] = (S.[], none)
split_first (S.◌∷◌ c s) =
    let parts = split_first s in if is_dot c then (S.[], some s) else put_first c parts

-- a dict whose one key is the name of the namespace stands for the value under it
unfoldable pub flattened : String → Fields → Value
flattened namespace nil = section nil
flattened namespace (field name value nil) =
    if name == namespace then value else section (field name value nil)
flattened namespace (field name value (field other next fields)) =
    section (field name value (field other next fields))

abbrev pub or_nil : Option (Option Fields) → Fields
or_nil none = nil
or_nil (some none) = nil
or_nil (some (some fields)) = fields

abbrev pub defaults_of : Option Fields → Fields
defaults_of none = nil
defaults_of (some fields) = deep_merge nil fields

-- `deep_get` from any value
abbrev pub read : String → Value → Value → Value
read path default null = default
read path default (leaf b rest) = default
read path default (section fields) = deep_get fields path default

abbrev pub read_rest : Option String → Value → Value → Value
read_rest none default value = value
read_rest (some path) default value = read path default value

abbrev pub data_of : String → Option Fields → Value
data_of name none = null
data_of name (some fields) = flattened name fields

abbrev pub set_value : Option Value → Option String → Value → Option Value
set_value old none value = some value
set_value (some (section fields)) (some path) value = deep_set fields path value
set_value old (some path) value = none

-- `deep_merge(result, overrides)` where neither need be a dict: a value takes an empty override only
unfoldable pub merge_values : {E : Type 0} → Value → Value → Result E
merge_values base null = raise no_dict
merge_values base (leaf b rest) = raise no_dict
merge_values base (section nil) = ok base
merge_values null (section (field name value fields)) = raise no_dict
merge_values (leaf b rest) (section (field name value fields)) = raise no_dict
merge_values (section base) (section (field name value fields)) =
    ok (section (deep_merge base (field name value fields)))

unfoldable pub merge_override : {E : Type 0} → Value → Option Value → Result E
merge_override base none = ok base
merge_override base (some override) = merge_values base override

-- the layer of the configuration under a model
abbrev pub merge_config : {E : Type 0} → Value → Option (Option Fields) → Result E
merge_config merged none = ok merged
merge_config merged (some none) = raise no_dict
merge_config merged (some (some fields)) = merge_values merged (section fields)

abbrev pub and_then : {E : Type 0} → Result E → (Value → Result E) → Result E
and_then (raise error) next = raise error
and_then (ok value) next = next value

module _ {E : Type 0} where
  unfoldable pub base_config : ConfigManager E → String → Value
  base_config manager namespace = flattened namespace (or_nil (Dict.get namespace manager.configs))

  unfoldable pub get_dict_config : ConfigManager E → String → Result E
  get_dict_config manager namespace =
      merge_override (base_config manager namespace) (Dict.get namespace manager.runtime_overrides)

  abbrev pub validated : Model E → Value → Result E
  validated model null = raise no_dict
  validated model (leaf b rest) = raise no_dict
  validated model (section fields) = elim (model fields) [
    | raise error ↦ raise (invalid error)
    | ok value ↦ ok value
  ]

  -- without the cache
  unfoldable pub merged_config : ConfigManager E → String → Result E
  merged_config manager namespace =
      and_then
        (merge_config (section (defaults_of (Dict.get namespace manager.extension_defaults)))
          (Dict.get namespace manager.configs))
        (λ merged. merge_override merged (Dict.get namespace manager.runtime_overrides))

  abbrev pub keep_model : ConfigManager E → String → Result E → Result E × ConfigManager E
  keep_model manager namespace (raise error) = (raise error, manager)
  keep_model manager namespace (ok value) = (
    ok value,
    record {
      configs = manager.configs;
      runtime_overrides = manager.runtime_overrides;
      models = manager.models;
      extension_defaults = manager.extension_defaults;
      merged_models = Dict.insert namespace value manager.merged_models;
    },
  )

  unfoldable pub get_typed_config : ConfigManager E → String → Model E → Result E × ConfigManager E
  get_typed_config manager namespace model = elim (Dict.get namespace manager.merged_models) [
    | some typed ↦ (ok typed, manager)
    | none ↦
        keep_model manager namespace (and_then (merged_config manager namespace) (validated model))
  ]

  unfoldable pub read_result :
      Option String → Value → Result E × ConfigManager E → Result E × ConfigManager E
  read_result rest default (raise error, manager) = (raise error, manager)
  read_result rest default (ok value, manager) = (ok (read_rest rest default value), manager)

  -- a namespace that the provider does not know
  unfoldable pub get_model :
      ConfigManager E → String → Option String → Value → Result E × ConfigManager E
  get_model manager namespace rest default = elim (Dict.get namespace manager.models) [
    | none ↦ (ok default, manager)
    | some model ↦ read_result rest default (get_typed_config manager namespace model)
  ]

  unfoldable pub get_in :
      ConfigManager E → String × Option String → Value → Result E × ConfigManager E
  get_in manager (namespace, rest) default =
      if Dict.has namespace manager.configs
      then read_result rest default (get_dict_config manager namespace, manager)
      else get_model manager namespace rest default

  -- a path that is a namespace itself is answered without the overrides; that is so for every path of one part
  unfoldable pub get : ConfigManager E → String → Value → Result E × ConfigManager E
  get manager key_path default = elim (Dict.get key_path manager.configs) [
    | some fields ↦ (ok (data_of key_path fields), manager)
    | none ↦ get_in manager (split_first key_path) default
  ]

  -- `set` up to the assignment: the namespace is made where it is missing
  unfoldable pub ensure : String → ConfigManager E → ConfigManager E
  ensure namespace manager = record {
    configs = Dict.setdefault namespace (some nil) manager.configs;
    runtime_overrides = Dict.setdefault namespace (section nil) manager.runtime_overrides;
    models = manager.models;
    extension_defaults = manager.extension_defaults;
    merged_models = manager.merged_models;
  }

  -- the assignment, and the model is forgotten
  unfoldable pub assign :
      String → Option Value → ConfigManager E → Outcome (ConfigError E) Unit × ConfigManager E
  assign namespace none manager = (raise no_dict, manager)
  assign namespace (some value) manager = (
    ok tt,
    record {
      configs = manager.configs;
      runtime_overrides = Dict.insert namespace value manager.runtime_overrides;
      models = manager.models;
      extension_defaults = manager.extension_defaults;
      merged_models = Dict.erase namespace manager.merged_models;
    },
  )

  unfoldable pub set_in :
      ConfigManager E
      → String × Option String
      → Value
      → Outcome (ConfigError E) Unit × ConfigManager E
  set_in manager (namespace, rest) value =
      let ensured = ensure namespace manager in
      assign namespace (set_value (Dict.get namespace ensured.runtime_overrides) rest value) ensured

  unfoldable pub set :
      ConfigManager E → String → Value → Outcome (ConfigError E) Unit × ConfigManager E
  set manager key_path value = set_in manager (split_first key_path) value

  unfoldable pub register_config :
      ConfigManager E → String → Model E → Option Fields → ConfigManager E
  register_config manager namespace model defaults = record {
    configs = manager.configs;
    runtime_overrides = manager.runtime_overrides;
    models = Dict.insert namespace model manager.models;
    extension_defaults = elim defaults [
      | none ↦ manager.extension_defaults
      | some nil ↦ manager.extension_defaults
      | some fields ↦ Dict.insert namespace fields manager.extension_defaults
    ];
    merged_models = Dict.erase namespace manager.merged_models;
  }
