-- ===== src/Configuration/Merger/Overrides.antt =====
-- What an override holds, the merge holds.

use optorch.Base.{
  ◌≡◌, refl, Bool, true, false, String, List, [], ◌∷◌, Option, none, some, if◌then◌else◌, ◌==◌, sym,
  ap, ◌∙◌, arith, if_both, elem,
}
use optorch.Configuration.Merger.{
  Value, null, leaf, section, Fields, nil, field, get, pop, split, get_path, deep_get, replaces,
  onto, deep_merge,
}
use optorch.Configuration.Merger.Entries.{
  get-pop, Distinct, DistinctValue, merged, or_before, get-deep_merge,
}
use optorch.Configuration.Merger.Paths.{next, get_path-section}

-- the section under a key of such a dict is one
unfoldable pub DistinctEntry : Option Value → Type 0
DistinctEntry none = Unit
DistinctEntry (some value) = DistinctValue value

pub get-Distinct :
    (key : String) (fields : Fields) → Distinct fields → DistinctEntry (get key fields)
unfolding get Distinct DistinctEntry
get-Distinct key nil distinct = tt
get-Distinct key (field name value fields) (_, value_distinct, distinct) =
    if_both DistinctEntry (name == key) _ _ (λ _. value_distinct)
      (λ _. get-Distinct key fields distinct)

-- the path leads to this leaf
Leads : List String → Value → Bool → String → Type 0
Leads keys value b rest = get_path keys value ≡ some (leaf b rest)

-- the marker is not on the path
pop-Leads :
    (keys : List String) (fields : Fields) (b : Bool) (rest : String)
    → elem "__replace__" keys ≡ false
    → Leads keys (section fields) b rest
    → Leads keys (section (pop "__replace__" fields)) b rest
unfolding Leads get_path elem
pop-Leads [] fields b rest unmarked leads = absurd (ground (arith, leads))
pop-Leads (key ∷ keys) fields b rest unmarked leads =
    get_path-section key keys (pop "__replace__" fields)
    ∙ ap (next keys)
        (get-pop "__replace__" key fields ∙ other ("__replace__" == key) (ground (arith, unmarked)))
    ∙ sym (get_path-section key keys fields)
    ∙ leads
  where
    other : (b : Bool) → b ≡ false → (if b then none else get key fields) ≡ get key fields
    other true h = absurd (ground (arith, h))
    other false h = refl

-- the paths that go on from a section, in it and in any merge with it
LeadsMerged : List String → Bool → String → Type 0
LeadsMerged keys b rest =
    (override base : Fields)
    → Distinct override
    → elem "__replace__" keys ≡ false
    → Leads keys (section override) b rest
    → Leads keys (section (deep_merge base override)) b rest

onto-Leads :
    (keys : List String) (b : Bool) (rest : String) (override : Fields) (before : Option Value)
    → LeadsMerged keys b rest
    → Distinct override
    → elem "__replace__" keys ≡ false
    → Leads keys (section override) b rest
    → Leads keys (onto override before (λ base. deep_merge base override)) b rest
unfolding LeadsMerged
onto-Leads keys b rest override none later distinct unmarked leads = leads
onto-Leads keys b rest override (some null) later distinct unmarked leads = leads
onto-Leads keys b rest override (some (leaf c other)) later distinct unmarked leads = leads
onto-Leads keys b rest override (some (section base)) later distinct unmarked leads =
    later override base distinct unmarked leads

or_before-Leads :
    (keys : List String) (b : Bool) (rest : String) (before entry : Option Value)
    → LeadsMerged keys b rest
    → DistinctEntry entry
    → elem "__replace__" keys ≡ false
    → next keys entry ≡ some (leaf b rest)
    → next keys (or_before before entry) ≡ some (leaf b rest)
unfolding or_before merged DistinctEntry Leads get_path Distinct DistinctValue
or_before-Leads keys b rest before none later distinct unmarked leads =
    absurd (ground (arith, leads))
or_before-Leads [] b rest before (some null) later distinct unmarked leads =
    absurd (ground (arith, leads))
or_before-Leads (key ∷ keys) b rest before (some null) later distinct unmarked leads =
    absurd (ground (arith, leads))
or_before-Leads keys b rest before (some (leaf c other)) later distinct unmarked leads = leads
or_before-Leads keys b rest before (some (section override)) later distinct unmarked leads =
    if_both (λ (found : Option Value). next keys found ≡ some (leaf b rest)) (replaces override) _ _
      (λ _. pop-Leads keys override b rest unmarked leads)
      (λ _. onto-Leads keys b rest override before later distinct unmarked leads)

deep_merge-Leads : (keys : List String) (b : Bool) (rest : String) → LeadsMerged keys b rest
unfolding LeadsMerged Leads elem get_path
deep_merge-Leads [] b rest override base distinct unmarked leads = absurd (ground (arith, leads))
deep_merge-Leads (key ∷ keys) b rest override base distinct unmarked leads =
    get_path-section key keys (deep_merge base override)
    ∙ ap (next keys) (get-deep_merge override key base distinct)
    ∙ or_before-Leads keys b rest (get key base) (get key override) (deep_merge-Leads keys b rest)
        (get-Distinct key override distinct) (ground (arith, unmarked))
        (sym (get_path-section key keys override) ∙ leads)

-- For an override that stores no key twice, and a path with no part __replace__: where `deep_get` reads a value in the
-- override at the path that is neither None nor a dict, it reads the same value there in the merge, with any default,
-- whatever the base holds and whatever sections on the way are marked to be replaced.
pub deep_get-deep_merge :
    (base override : Fields) (key_path rest : String) (b : Bool)
    → Distinct override
    → elem "__replace__" (split key_path) ≡ false
    → deep_get override key_path null ≡ leaf b rest
    → (default : Value) → deep_get (deep_merge base override) key_path default ≡ leaf b rest
unfolding deep_get Leads LeadsMerged
deep_get-deep_merge base override key_path rest b distinct unmarked reads default =
    ap (λ (found : Option Value). elim found [ none ↦ default | some value ↦ value ])
      (deep_merge-Leads (split key_path) b rest override base distinct unmarked (found _ reads))
  where
    found :
        (o : Option Value)
        → elim o [ none ↦ null | some value ↦ value ] ≡ leaf b rest
        → o ≡ some (leaf b rest)
    found none e = absurd (ground (arith, e))
    found (some value) e = ap some e
