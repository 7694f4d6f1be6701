-- ===== src/Configuration/Merger/Entries.antt =====
-- Entries of a dict that are read after they were written, removed or merged.
use optorch.Base.{
  ◌≡◌, refl, Bool, true, false, String, Option, none, some, if◌then◌else◌, ◌==◌, ap, subst, ◌∙◌,
  arith, eq_iff,
}
use optorch.Configuration.Merger.{
  Value, null, leaf, section, Fields, nil, field, get, set, pop, replaces, onto, merge_entry,
  deep_merge,
}

pub get-set :
    (k j : String) (v : Value) (d : Fields)
    → get j (set k v d) ≡ (if k == j then some v else get j d)
unfolding get set
get-set k j v nil = refl
get-set k j v (field i w d) = ground (arith, eq_iff k j, eq_iff i k, eq_iff i j, get-set k j v d)

pub get-pop : (k j : String) (d : Fields) → get j (pop k d) ≡ (if k == j then none else get j d)
unfolding get pop
get-pop k j nil = ground arith
get-pop k j (field i w d) = ground (arith, eq_iff k j, eq_iff i k, eq_iff i j, get-pop k j d)

-- no key is stored twice, neither in the dict nor in the sections of it
unfoldable mutual
  pub Distinct : Fields → Type 0
  Distinct nil = Unit
  Distinct (field key value fields) =
      (get key fields ≡ none) × DistinctValue value × Distinct fields

  pub DistinctValue : Value → Type 0
  DistinctValue null = Unit
  DistinctValue (leaf b rest) = Unit
  DistinctValue (section fields) = Distinct fields

-- what stands under a key after an override has this value there
unfoldable pub merged : Option Value → Value → Option Value
merged before null = none
merged before (leaf b rest) = some (leaf b rest)
merged before (section override) =
    if replaces override
    then some (section (pop "__replace__" override))
    else some (onto override before (λ base. deep_merge base override))

unfoldable pub or_before : Option Value → Option Value → Option Value
or_before before none = before
or_before before (some value) = merged before value

-- where the keys are equal, one can be read for the other
same_key :
    (P : String → Option Value) (key j : String) (x : Option Value)
    → (if key == j then P key else x) ≡ (if key == j then P j else x)
same_key P key j x = by_test (key == j) (eq_iff key j).0
  where
    by_test : (b : Bool) → (b ≡ true → key ≡ j) → (if b then P key else x) ≡ (if b then P j else x)
    by_test true equal = ap P (equal refl)
    by_test false equal = refl

get-merge_entry :
    (key j : String) (value : Value) (base : Fields)
    → get j (merge_entry key value base)
      ≡ (if key == j then merged (get j base) value else get j base)
unfolding merge_entry merged deep_merge
get-merge_entry key j null base = get-pop key j base
get-merge_entry key j (leaf b rest) base = get-set key j (leaf b rest) base
get-merge_entry key j (section override) base = by_marker (replaces override)
  where
    merge : Fields → Fields
    merge fields = deep_merge fields override

    by_marker :
        (r : Bool)
        → get j (
            if r
            then set key (section (pop "__replace__" override)) base
            else set key (onto override (get key base) merge) base)
          ≡ (if key == j
              then (if r
                  then some (section (pop "__replace__" override))
                  else some (onto override (get j base) merge))
              else get j base)
    by_marker true = get-set key j (section (pop "__replace__" override)) base
    by_marker false =
        get-set key j (onto override (get key base) merge) base
        ∙ same_key (λ k. some (onto override (get k base) merge)) key j (get j base)

-- Where the dict that is merged in has no key twice: the entry under each key is that of the base where the override
-- has none, and otherwise comes from the two entries alone, by the rules for null, markers and sections.
pub get-deep_merge :
    (override : Fields) (j : String) (base : Fields)
    → Distinct override
    → get j (deep_merge base override) ≡ or_before (get j base) (get j override)
unfolding deep_merge or_before get Distinct
get-deep_merge nil j base distinct = refl
get-deep_merge (field key value override) j base (absent, _, distinct) =
    get-deep_merge override j (merge_entry key value base) distinct
    ∙ ap (λ before. or_before before (get j override)) (get-merge_entry key j value base)
    ∙ by_test (key == j) (λ same. subst (λ k. get k override ≡ none) ((eq_iff key j).0 same) absent)
  where
    by_test :
        (b : Bool)
        → (b ≡ true → get j override ≡ none)
        → or_before (if b then merged (get j base) value else get j base) (get j override)
          ≡ or_before (get j base) (if b then some value else get j override)
    by_test true absent = ap (or_before (merged (get j base) value)) (absent refl)
    by_test false absent = refl
