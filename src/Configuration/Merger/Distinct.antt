-- ===== src/Configuration/Merger/Distinct.antt =====
-- Writing into a dict stores no key twice.
use mathlib.Core.Option.{some-injective}
use Prim.Native.String as S
use optorch.Base.{
  ◌≡◌, refl, Bool, true, false, String, List, [], ◌∷◌, Option, none, some, if◌then◌else◌, ◌==◌, sym,
  ap, subst, ◌∙◌, arith, eq_iff, if_both,
}
use optorch.Configuration.Merger.{
  Value, null, leaf, section, Fields, nil, field, get, set, is_dot, onto_first, split, or_empty,
  set_entry, set_path, deep_set,
}
use optorch.Configuration.Merger.Entries.{get-set, Distinct, DistinctValue}
use optorch.Configuration.Merger.Overrides.{DistinctEntry, get-Distinct}

set-Distinct :
    (key : String) (value : Value) (fields : Fields)
    → DistinctValue value
    → Distinct fields
    → Distinct (set key value fields)
unfolding set Distinct get
set-Distinct key value nil value_distinct distinct = (refl, value_distinct, tt)
set-Distinct key value (field name old fields) value_distinct (absent, old_distinct, distinct) =
    if_both Distinct (name == key) _ _ (λ _. (absent, value_distinct, distinct))
      (λ other. (
        get-set key name value fields
            ∙ by_test (key == name)
                (λ same. ground (arith, same, other, eq_iff key name, eq_iff name key)),
        old_distinct,
        set-Distinct key value fields value_distinct distinct,
      ))
  where
    by_test : (b : Bool) → (b ≡ true → ⊥) → (if b then some value else get name fields) ≡ none
    by_test true differ = absurd (differ refl)
    by_test false differ = absent

or_empty-Distinct : (entry : Option Value) → DistinctEntry entry → DistinctValue (or_empty entry)
unfolding DistinctEntry DistinctValue Distinct
or_empty-Distinct none distinct = tt
or_empty-Distinct (some value) distinct = distinct

pub set_path-Distinct :
    (keys : List String) (value before after : Value)
    → DistinctValue value
    → DistinctValue before
    → set_path keys value before ≡ some after
    → DistinctValue after
unfolding set_path DistinctValue
set_path-Distinct [] value before after value_distinct distinct e =
    subst DistinctValue (some-injective _ _ e) value_distinct
set_path-Distinct (key ∷ keys) value null after value_distinct distinct e =
    absurd (ground (arith, e))
set_path-Distinct (key ∷ keys) value (leaf b rest) after value_distinct distinct e =
    absurd (ground (arith, e))
set_path-Distinct (key ∷ keys) value (section fields) after value_distinct distinct e =
    by_inner (set_path keys value (or_empty (get key fields)))
      (λ inside.
        set_path-Distinct keys value (or_empty (get key fields)) inside value_distinct
          (or_empty-Distinct (get key fields) (get-Distinct key fields distinct)))
      refl e
  where
    by_inner :
        (inner : Option Value)
        → ((inside : Value)
            → set_path keys value (or_empty (get key fields)) ≡ some inside
            → DistinctValue inside)
        → set_path keys value (or_empty (get key fields)) ≡ inner
        → set_entry key fields inner ≡ some after
        → DistinctValue after
    by_inner none later ran e = absurd (ground (arith, e))
    by_inner (some entry) later ran e =
        subst DistinctValue (some-injective _ _ e)
          (set-Distinct key entry fields (later entry ran) distinct)

-- the parts of a path
split-some : (path : String) → (key : String) × (keys : List String) × (split path ≡ key ∷ keys)
unfolding split
split-some S.[] = (S.[], [], refl)
split-some (S.◌∷◌ c path) = let (key, keys, e) = split-some path in by_dot key keys e (is_dot c)
  where
    by_dot :
        (key : String) (keys : List String)
        → split path ≡ key ∷ keys
        → (b : Bool)
        → (first : String) × (others : List String) × ((if b
              then S.[] ∷ split path
              else onto_first c (split path))
            ≡ first ∷ others)
    by_dot key keys e true = (S.[], split path, refl)
    by_dot key keys e false = (S.◌∷◌ c key, keys, ap (onto_first c) e)

-- `deep_set` on a section leaves a section
pub deep_set-section :
    (fields : Fields) (path : String) (value after : Value)
    → deep_set fields path value ≡ some after
    → (left : Fields) × (after ≡ section left)
unfolding deep_set set_path
deep_set-section fields path value after e =
    let (key, keys, parts) = split-some path in
    by_inner key keys (set_path keys value (or_empty (get key fields)))
      (ap (λ ks. set_path ks value (section fields)) (sym parts) ∙ e)
  where
    by_inner :
        (key : String) (keys : List String) (inner : Option Value)
        → set_entry key fields inner ≡ some after
        → (left : Fields) × (after ≡ section left)
    by_inner key keys none e = absurd (ground (arith, e))
    by_inner key keys (some entry) e = (set key entry fields, sym (some-injective _ _ e))
