-- ===== src/Base/Dict.antt =====
-- Python's `dict` with string keys: entries in the order of insertion, a key stored once.
use Prim.Native.String.{String}
use mathlib.Core.Bool.{Bool, true, false, ◌||◌}
use mathlib.Core.List.{List, [], ◌∷◌}
use mathlib.Core.Logic.{◌≢◌}
use mathlib.Core.Option.{Option, none, some}
use mathlib.Core.Path.{◌≡◌, refl, sym, ap, subst, ◌∙◌}
use native.Mathlib.Omega.{arith}
use text.Mathlib.Text.{◌==◌}
use text.Mathlib.TextEquality.{eq_iff}
use optorch.Base.Tests.{if◌then◌else◌, str_eq_self}

abbrev pub Dict {ℓ} : Type ℓ → Type ℓ
Dict V = List (String × V)

module _ {ℓ} {V : Type ℓ} where
  -- `d.get(k)`
  unfoldable pub get : String → Dict V → Option V
  get k [] = none
  get k ((j, v) ∷ d) = if j == k then some v else get k d

  -- `d[k] = v`: an old key keeps its place
  unfoldable pub insert : String → V → Dict V → Dict V
  insert k v [] = (k, v) ∷ []
  insert k v ((j, w) ∷ d) = if j == k then (j, v) ∷ d else (j, w) ∷ insert k v d

  -- `d.pop(k, None)`, `del d[k]`
  unfoldable pub erase : String → Dict V → Dict V
  erase k [] = []
  erase k ((j, w) ∷ d) = let rest = erase k d in if j == k then rest else (j, w) ∷ rest

  -- `k in d`
  unfoldable pub has : String → Dict V → Bool
  has k [] = false
  has k ((j, _) ∷ d) = j == k || has k d

  unfoldable pub keys : Dict V → List String
  keys [] = []
  keys ((j, _) ∷ d) = j ∷ keys d

  unfoldable pub get_or : String → V → Dict V → V
  unfolding get
  get_or k v d = elim (get k d) [ none ↦ v | some w ↦ w ]

  pub get-insert :
      (k j : String) (v : V) (d : Dict V)
      → get j (insert k v d) ≡ (if k == j then some v else get j d)
  unfolding get insert
  get-insert k j v [] = refl
  get-insert k j v ((i, w) ∷ d) =
      ground (arith, eq_iff k j, eq_iff i k, eq_iff i j, get-insert k j v d)

  pub get-erase :
      (k j : String) (d : Dict V) → get j (erase k d) ≡ (if k == j then none else get j d)
  unfolding get erase
  get-erase k j [] = ground arith
  get-erase k j ((i, w) ∷ d) = ground (arith, eq_iff k j, eq_iff i k, eq_iff i j, get-erase k j d)

  pub get-insert_self : (k : String) (v : V) (d : Dict V) → get k (insert k v d) ≡ some v
  get-insert_self k v d = rw (get-insert k k v d, str_eq_self k)

  pub get-insert_ne : (k j : String) (v : V) (d : Dict V) → k ≢ j → get j (insert k v d) ≡ get j d
  get-insert_ne k j v d h = rw (get-insert k j v d) (ground (arith, eq_iff k j))

  pub get-erase_self : (k : String) (d : Dict V) → get k (erase k d) ≡ none
  get-erase_self k d = rw (get-erase k k d, str_eq_self k)

  pub get-erase_ne : (k j : String) (d : Dict V) → k ≢ j → get j (erase k d) ≡ get j d
  get-erase_ne k j d h = rw (get-erase k j d) (ground (arith, eq_iff k j))

  abbrev pub some_value : Option V → Bool
  some_value o = elim o [ none ↦ false | some _ ↦ true ]

  -- a key is present exactly when it has a value
  pub has-get :
      (k : String) (d : Dict V) → has k d ≡ elim (get k d) [ none ↦ false | some _ ↦ true ]
  unfolding has get
  has-get k [] = refl
  has-get k ((j, v) ∷ d) = ground (arith, has-get k d)

pub get-absent {ℓ} : {V : Type ℓ} (k : String) (d : Dict V) → has k d ≡ false → get k d ≡ none
get-absent {V = V} k d missing = by_value (get k d) (sym (has-get k d) ∙ missing)
  where
    by_value : (o : Option V) → some_value o ≡ false → o ≡ none
    by_value none h = refl
    by_value (some w) h = absurd (ground (arith, h))

-- `d.setdefault(k, v)`: the value is stored unless there is one
abbrev pub setdefault {ℓ} : {V : Type ℓ} → String → V → Dict V → Dict V
setdefault k v d = if has k d then d else insert k v d

pub get-setdefault {ℓ} :
    {V : Type ℓ} (k j : String) (v : V) (d : Dict V)
    → get j (setdefault k v d)
      ≡ elim (get j d) [ some w ↦ some w | none ↦ if k == j then some v else none ]
get-setdefault {V = V} k j v d = by_test (has k d) refl
  where
    found : Option V → Option V
    found o = elim o [ some w ↦ some w | none ↦ if k == j then some v else none ]

    absent :
        (b : Bool)
        → (b ≡ true → has k d ≡ false)
        → has k d ≡ true
        → (if b then some v else none) ≡ none
    absent true h present = ground (arith, h, present)
    absent false h present = refl

    kept : (o : Option V) → get j d ≡ o → has k d ≡ true → o ≡ found o
    kept (some w) e present = refl
    kept none e present = sym (
        absent (k == j)
          (λ same.
            subst (λ i. has i d ≡ false) (sym ((eq_iff k j).0 same))
              (has-get j d ∙ ap some_value e))
          present)

    stored :
        (b : Bool) (o : Option V)
        → (b ≡ true → o ≡ none)
        → (if b then some v else o) ≡ elim o [ some w ↦ some w | none ↦ if b then some v else none ]
    stored true none missing = refl
    stored true (some w) missing = absurd (ground (arith, missing refl))
    stored false none missing = refl
    stored false (some w) missing = refl

    by_test : (b : Bool) → has k d ≡ b → get j (if b then d else insert k v d) ≡ found (get j d)
    by_test true present = kept (get j d) refl present
    by_test false missing =
        get-insert k j v d
        ∙ stored (k == j) (get j d)
            (λ same. subst (λ i. get i d ≡ none) ((eq_iff k j).0 same) (get-absent k d missing))

pub get-setdefault_self {ℓ} :
    {V : Type ℓ} (k : String) (v : V) (d : Dict V)
    → get k (setdefault k v d) ≡ some (elim (get k d) [ none ↦ v | some w ↦ w ])
get-setdefault_self {V = V} k v d = get-setdefault k k v d ∙ stored (get k d)
  where
    stored :
        (o : Option V)
        → (elim o [ some w ↦ some w | none ↦ if k == k then some v else none ])
          ≡ some (elim o [ none ↦ v | some w ↦ w ])
    stored (some w) = refl
    stored none = ap (λ (b : Bool). if b then some v else none) (str_eq_self k)

pub get_or-insert {ℓ} :
    {V : Type ℓ} (k j : String) (v w : V) (d : Dict V)
    → get_or j w (insert k v d) ≡ (if k == j then v else get_or j w d)
unfolding get_or
get_or-insert {V = V} k j v w d =
    ap (λ (found : Option V). elim found [ none ↦ w | some u ↦ u ]) (get-insert k j v d)
    ∙ ground arith

pub get_or-absent {ℓ} :
    {V : Type ℓ} (k : String) (w : V) (d : Dict V) → has k d ≡ false → get_or k w d ≡ w
unfolding get_or
get_or-absent k w d h = ground (arith, h, has-get k d)

pub ruleset dict_laws = (get-insert, get-erase)
