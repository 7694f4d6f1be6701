-- ===== src/Configuration/Manager/Tests.antt =====
-- Concrete runs of `ConfigManager`.
use optorch.Base.{◌≡◌, refl, true, false, String, [], ◌∷◌, none, some, ok, elem}
use optorch.Base.Dict
use optorch.Configuration.Merger
use optorch.Configuration.Merger.{Value, null, leaf, section, Fields, nil, field, split}
use optorch.Configuration.Merger.Overrides.{DistinctEntry}
use optorch.Configuration.Manager.{
  ConfigManager, Model, split_first, get, get_in, get_model, get_typed_config, merged_config,
  get_dict_config, merge_override, merge_values, read_result, base_config, flattened, set, set_in,
  ensure, assign,
}
use optorch.Configuration.Manager.Overrides.{WellFormed, get-set}

abbrev model : Model String
model fields = ok (section (field "limit" (leaf true "10") fields))

abbrev manager : ConfigManager String
manager = record {
  configs = ("llm", some (field "model" (leaf true "small") nil)) ∷ [];
  runtime_overrides = [];
  models = ("budget", model) ∷ [];
  extension_defaults = [];
  merged_models = [];
}

abbrev changed : ConfigManager String
changed = record {
  configs = manager.configs;
  runtime_overrides = ("llm", section (field "model" (leaf true "large") nil)) ∷ [];
  models = manager.models;
  extension_defaults = [];
  merged_models = [];
}

set_model : set manager "llm.model" (leaf true "large") ≡ (ok tt, changed)
unfolding set set_in split_first ensure assign Dict.has Dict.insert Dict.get Dict.erase
    Merger.deep_set Merger.set_path Merger.split Merger.get Merger.set
set_model = refl

get-set_example :
    WellFormed changed "llm"
    × ((default : Value) → get changed "llm.model" default ≡ (ok (leaf true "large"), changed))
unfolding split_first Dict.get base_config flattened WellFormed DistinctEntry elem split
get-set_example =
    get-set manager changed "llm.model" "llm" "model" "large" true
      (field "model" (leaf true "small") nil) parts absent based well_formed unmarked set_model
  where
    parts : split_first "llm.model" ≡ ("llm", some "model")
    parts = refl

    absent : Dict.get "llm.model" manager.configs ≡ none
    absent = refl

    based : base_config manager "llm" ≡ section (field "model" (leaf true "small") nil)
    based = refl

    well_formed : WellFormed manager "llm"
    well_formed = tt

    unmarked : elem "__replace__" (split "model") ≡ false
    unmarked = refl

-- the namespace alone is answered without the override
whole_namespace :
    get changed "llm" null ≡ (ok (section (field "model" (leaf true "small") nil)), changed)
unfolding get Dict.get flattened
whole_namespace = refl

abbrev after_set : ConfigManager String
after_set = (set manager "budget.used" (leaf true "1")).1

-- a default of the model is read before the first `set` in its namespace, and no longer after it
default_before : (get manager "budget.limit" null).0 ≡ ok (leaf true "10")
unfolding get get_in get_model get_typed_config merged_config merge_override merge_values
    read_result split_first Dict.get Dict.has Dict.insert Merger.deep_get Merger.get_path
    Merger.split Merger.get Merger.deep_merge
default_before = refl

default_after : (get after_set "budget.limit" null).0 ≡ ok null
unfolding get get_in get_model get_typed_config merged_config merge_override merge_values
    read_result split_first get_dict_config base_config flattened set set_in ensure assign Dict.get
    Dict.has Dict.insert Dict.erase Merger.deep_get Merger.get_path Merger.split Merger.get
    Merger.deep_merge Merger.deep_set Merger.set_path Merger.set Merger.replaces
default_after = refl
