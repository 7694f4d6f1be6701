-- ===== src/Configuration/Manager/Overrides.antt =====
-- `get` after `set`: what an override at run time changes.

use Prim.Native.String as S
use optorch.Base.{
  ◌≡◌, refl, Bool, true, false, String, Option, none, some, Outcome, ok, if◌then◌else◌, ◌==◌, sym,
  ap, subst, ◌∙◌, arith, eq_iff, elem, not_true, ℕ, zero, suc, ◌<◌,
}
use optorch.Base.Dict
use optorch.Configuration.Merger.{
  Value, null, leaf, section, Fields, nil, field, is_dot, split, deep_get, deep_set, deep_merge,
}
use optorch.Configuration.Merger.Entries.{Distinct, DistinctValue}
use optorch.Configuration.Merger.Paths.{deep_get-deep_set}
use optorch.Configuration.Merger.Overrides.{DistinctEntry, deep_get-deep_merge}
use optorch.Configuration.Merger.Distinct.{set_path-Distinct, deep_set-section}
use optorch.Configuration.Manager.{
  ConfigError, ConfigManager, Result, split_first, put_first, flattened, or_nil, set_value,
  merge_values, merge_override, read_result, base_config, get_dict_config, get_in, get_model,
  data_of, get, ensure, assign, set_in, set,
}

merge_values-section :
    {E : Type 0} (base override : Fields)
    → merge_values {E = E} (section base) (section override)
      ≡ ok (section (deep_merge base override))
unfolding merge_values deep_merge
merge_values-section base nil = refl
merge_values-section base (field name value override) = refl

size : String → ℕ
size S.[] = zero
size (S.◌∷◌ c s) = suc (size s)

-- a path of several parts is longer than its first
split_first-shorter :
    (path namespace rest : String)
    → split_first path ≡ (namespace, some rest)
    → size namespace < size path
unfolding split_first size
split_first-shorter S.[] namespace rest e =
    absurd (ground (arith, ap (λ (p : String × Option String). p.1) e))
split_first-shorter (S.◌∷◌ c path) namespace rest e =
    by_dot (is_dot c) (split_first path) (split_first-shorter path) refl e
  where
    by_dot :
        (b : Bool) (parts : String × Option String)
        → ((n r : String) → split_first path ≡ (n, some r) → size n < size path)
        → split_first path ≡ parts
        → (if b then (S.[], some path) else put_first c parts) ≡ (namespace, some rest)
        → size namespace < suc (size path)
    by_dot true parts shorter split e =
        subst (λ n. size n < suc (size path)) (ap (λ (p : String × Option String). p.0) e)
          (ground arith)
    by_dot false (first, others) shorter split e =
        subst (λ n. size n < suc (size path)) (ap (λ (p : String × Option String). p.0) e)
          (ground (
            arith,
            shorter first rest
                (split ∙ ap (λ o. (first, o)) (ap (λ (p : String × Option String). p.1) e)),
          ))

split_first-differs :
    (path namespace rest : String)
    → split_first path ≡ (namespace, some rest)
    → (namespace == path) ≡ false
split_first-differs path namespace rest e = not_true (namespace == path) (λ same.
    ground
      (arith, split_first-shorter path namespace rest e, ap size ((eq_iff namespace path).0 same)))

module _ {E : Type 0} (manager : ConfigManager E) (namespace : String) where
  -- the override of the namespace, once it is there
  override_of : Value
  override_of = elim (Dict.get namespace manager.runtime_overrides) [
    | none ↦ section nil
    | some value ↦ value
  ]

  ensure-override :
      Dict.get namespace (ensure namespace manager).runtime_overrides ≡ some override_of
  unfolding ensure override_of
  ensure-override = Dict.get-setdefault_self namespace (section nil) manager.runtime_overrides

  ensure-has : Dict.has namespace (ensure namespace manager).configs ≡ true
  unfolding ensure
  ensure-has =
      Dict.has-get namespace (ensure namespace manager).configs
      ∙ ap Dict.some_value (Dict.get-setdefault_self namespace (some nil) manager.configs)

  -- the base stays what it was, and no other namespace is made
  ensure-base_config :
      base_config (ensure namespace manager) namespace ≡ base_config manager namespace
  unfolding ensure base_config
  ensure-base_config =
      ap (λ o. flattened namespace (or_nil o))
        (Dict.get-setdefault_self namespace (some nil) manager.configs)
      ∙ same (Dict.get namespace manager.configs)
    where
      same :
          (o : Option (Option Fields))
          → flattened namespace (or_nil (some (elim o [ none ↦ some nil | some w ↦ w ])))
            ≡ flattened namespace (or_nil o)
      same none = refl
      same (some fields) = refl

  ensure-absent :
      (path : String)
      → (namespace == path) ≡ false
      → Dict.get path manager.configs ≡ none
      → Dict.get path (ensure namespace manager).configs ≡ none
  unfolding ensure
  ensure-absent path differ absent =
      Dict.get-setdefault namespace path (some nil) manager.configs
      ∙ ap
          (λ (o : Option (Option Fields)). elim o [
            | some w ↦ some w
            | none ↦ if namespace == path then some (some nil) else none
          ])
          absent
      ∙ ap (λ (b : Bool). if b then some (some nil) else none) differ

-- the override of a namespace stores no key twice
unfoldable pub WellFormed : {E : Type 0} → ConfigManager E → String → Type 0
WellFormed manager namespace = DistinctEntry (Dict.get namespace manager.runtime_overrides)

override_of-Distinct :
    {E : Type 0} (manager : ConfigManager E) (namespace : String)
    → WellFormed manager namespace
    → DistinctValue (override_of manager namespace)
unfolding WellFormed override_of DistinctEntry DistinctValue Distinct
override_of-Distinct manager namespace = by_entry (Dict.get namespace manager.runtime_overrides)
  where
    by_entry :
        (o : Option Value)
        → DistinctEntry o
        → DistinctValue (elim o [ none ↦ section nil | some value ↦ value ])
    by_entry none distinct = tt
    by_entry (some value) distinct = distinct

module _ {E : Type 0} (namespace path : String) where
  -- what an assignment of a setting leaves
  Assigned : Value → ConfigManager E → ConfigManager E → Type 0
  Assigned value before after =
      (old : Fields) × (new : Fields) × DistinctValue (section new)
      × (deep_set old path value ≡ some (section new))
      × (Dict.get namespace after.runtime_overrides ≡ some (section new))
      × (after.configs ≡ (ensure namespace before).configs)

  set_in-Assigned :
      (manager after : ConfigManager E) (value : Value)
      → WellFormed manager namespace
      → DistinctValue value
      → set_in manager (namespace, some path) value ≡ (ok tt, after)
      → Assigned value manager after
  unfolding set_in Assigned assign deep_set
  set_in-Assigned manager after value well_formed value_distinct e =
      by_override (override_of manager namespace)
        (override_of-Distinct manager namespace well_formed)
        (ap
            (λ (o : Option Value).
              assign namespace (set_value o (some path) value) (ensure namespace manager))
            (sym (ensure-override manager namespace))
          ∙ e)
    where
      by_new :
          (old : Fields) (new : Option Value)
          → DistinctValue (section old)
          → deep_set old path value ≡ new
          → assign namespace new (ensure namespace manager) ≡ (ok tt, after)
          → Assigned value manager after
      by_new old none distinct ran e = absurd (ground (arith, ap (λ r. r.0) e))
      by_new old (some new) distinct ran e =
          let (left, is_section) = deep_set-section old path value new ran in
          let stored = ap (λ (r : Outcome (ConfigError E) Unit × ConfigManager E). r.1) e in
          (
            old,
            left,
            subst DistinctValue is_section (
                set_path-Distinct (split path) value (section old) new value_distinct distinct ran),
            ran ∙ ap some is_section,
            ap (λ (m : ConfigManager E). Dict.get namespace m.runtime_overrides) (sym stored)
                ∙ Dict.get-insert_self namespace new (ensure namespace manager).runtime_overrides
                ∙ ap some is_section,
            ap (λ (m : ConfigManager E). m.configs) (sym stored),
          )

      by_override :
          (override : Value)
          → DistinctValue override
          → assign namespace
              (set_value (some override) (some path) value)
              (ensure namespace manager)
            ≡ (ok tt, after)
          → Assigned value manager after
      by_override null distinct e = absurd (ground (arith, ap (λ r. r.0) e))
      by_override (leaf b rest) distinct e = absurd (ground (arith, ap (λ r. r.0) e))
      by_override (section old) distinct e = by_new old (deep_set old path value) distinct refl e

get_in-section :
    {E : Type 0} (manager : ConfigManager E) (namespace path : String) (base override : Fields)
    (default : Value)
    → Dict.has namespace manager.configs ≡ true
    → base_config manager namespace ≡ section base
    → Dict.get namespace manager.runtime_overrides ≡ some (section override)
    → get_in manager (namespace, some path) default
      ≡ (ok (deep_get (deep_merge base override) path default), manager)
unfolding get_in get_dict_config merge_override read_result
get_in-section {E = E} manager namespace path base override default known based overridden =
    ap
      (λ (b : Bool).
        if b
        then read_result (some path) default (get_dict_config manager namespace, manager)
        else get_model manager namespace (some path) default)
      known
    ∙ ap (λ (r : Result E). read_result (some path) default (r, manager))
        (ap (λ (o : Option Value). merge_override (base_config manager namespace) o) overridden
          ∙ ap (λ v. merge_values v (section override)) based
          ∙ merge_values-section base override)

-- A setting made at run time is read back: `set` with a path of several parts, whose first names the namespace, and
-- with a value that is neither None nor a dict. The base of the namespace is a dict, no namespace of the provider has
-- the name of the whole path, the override of the namespace stores no key twice, and none of the parts after the first
-- is __replace__. If `set` returns, then the override still stores no key twice, and `get` returns the value at that
-- path, whatever the default, and changes nothing.
pub get-set :
    {E : Type 0} (manager after : ConfigManager E) (key_path namespace path rest : String)
    (b : Bool) (base : Fields)
    → split_first key_path ≡ (namespace, some path)
    → Dict.get key_path manager.configs ≡ none
    → base_config manager namespace ≡ section base
    → WellFormed manager namespace
    → elem "__replace__" (split path) ≡ false
    → set manager key_path (leaf b rest) ≡ (ok tt, after)
    → WellFormed after namespace
      × ((default : Value) → get after key_path default ≡ (ok (leaf b rest), after))
unfolding set get WellFormed Assigned base_config DistinctEntry DistinctValue
get-set {E = E} manager after key_path namespace path rest b base parts absent based well_formed
      unmarked e =
    let (old, new, distinct, written, stored, configs) =
      set_in-Assigned namespace path manager after (leaf b rest) well_formed value_distinct
        (ap (λ p. set_in manager p (leaf b rest)) (sym parts) ∙ e) in
    (
      subst DistinctEntry (sym stored) distinct,
      λ default.
          reads default new
            (ap (Dict.get key_path) configs
              ∙ ensure-absent manager namespace key_path
                  (split_first-differs key_path namespace path parts) absent)
            (ap (Dict.has namespace) configs ∙ ensure-has manager namespace)
            (ap (λ c. flattened namespace (or_nil (Dict.get namespace c))) configs
              ∙ ensure-base_config manager namespace
              ∙ based)
            stored
            (deep_get-deep_merge base new path rest b distinct unmarked
              (deep_get-deep_set old new path path (leaf b rest) null written).0 default),
    )
  where
    value_distinct : DistinctValue (leaf b rest)
    value_distinct = tt

    reads :
        (default : Value) (new : Fields)
        → Dict.get key_path after.configs ≡ none
        → Dict.has namespace after.configs ≡ true
        → base_config after namespace ≡ section base
        → Dict.get namespace after.runtime_overrides ≡ some (section new)
        → deep_get (deep_merge base new) path default ≡ leaf b rest
        → get after key_path default ≡ (ok (leaf b rest), after)
    reads default new not_whole known base_is overridden answer =
        ap
          (λ (o : Option (Option Fields)). elim o [
            | some fields ↦ (ok (data_of key_path fields), after)
            | none ↦ get_in after (split_first key_path) default
          ])
          not_whole
        ∙ ap (λ p. get_in after p default) parts
        ∙ get_in-section after namespace path base new default known base_is overridden
        ∙ ap (λ v. (ok v, after)) answer
