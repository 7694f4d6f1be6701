-- ===== src/Configuration/Merger/Paths.antt =====
-- `deep_set`, and what `deep_get` reads after it.
use mathlib.Core.Option.{some-injective}
use optorch.Base.{
  ◌≡◌, refl, Bool, true, false, String, List, [], ◌∷◌, Option, none, some, if◌then◌else◌, ◌==◌, sym,
  ap, subst, ◌∙◌, arith, eq_iff, str_eq_self,
}
use optorch.Configuration.Merger.{
  Value, null, leaf, section, Fields, get, set, split, get_path, deep_get, or_empty, set_entry,
  set_path, deep_set,
}
use optorch.Configuration.Merger.Entries.{get-set}

-- `get_path` after the entry under the first key
abbrev pub next : List String → Option Value → Option Value
next keys none = none
next keys (some value) = get_path keys value

pub get_path-section :
    (key : String) (keys : List String) (fields : Fields)
    → get_path (key ∷ keys) (section fields) ≡ next keys (get key fields)
unfolding get_path
get_path-section key keys fields = by_entry (get key fields)
  where
    by_entry :
        (found : Option Value)
        → elim found [ none ↦ none | some value ↦ get_path keys value ] ≡ next keys found
    by_entry none = refl
    by_entry (some value) = refl

-- two paths that part at some key
unfoldable pub apart : List String → List String → Bool
apart [] others = false
apart (key ∷ keys) [] = false
apart (key ∷ keys) (other ∷ others) =
    let later = apart keys others in if key == other then later else true

-- a path reads what was set there, and every path that parts from it reads what it did
SetPath : List String → Value → Value → Value → Type 0
SetPath keys value before after =
    (get_path keys after ≡ some value)
    × ((others : List String)
        → apart keys others ≡ true
        → get_path others after ≡ get_path others before)

-- a path that parts from another one has a key, and an empty section has none
next-or_empty :
    (keys others : List String) (entry : Option Value)
    → apart keys others ≡ true
    → get_path others (or_empty entry) ≡ next others entry
unfolding apart get_path get
next-or_empty keys others (some value) differ = refl
next-or_empty keys (other ∷ others) none differ = refl
next-or_empty [] [] none differ = absurd (ground (arith, differ))
next-or_empty (key ∷ keys) [] none differ = absurd (ground (arith, differ))

set_entry-SetPath :
    (key : String) (keys : List String) (value entry : Value) (fields : Fields)
    → SetPath keys value (or_empty (get key fields)) entry
    → SetPath (key ∷ keys) value (section fields) (section (set key entry fields))
unfolding SetPath apart
set_entry-SetPath key keys value entry fields (reads, keeps) = (read, kept)
  where
    read : get_path (key ∷ keys) (section (set key entry fields)) ≡ some value
    read =
        get_path-section key keys (set key entry fields)
        ∙ ap (next keys) (
            get-set key key entry fields
            ∙ ap (λ b. if b then some entry else get key fields) (str_eq_self key))
        ∙ reads

    by_test :
        (other : String) (others : List String) (b : Bool)
        → (b ≡ true → key ≡ other)
        → (if b then apart keys others else true) ≡ true
        → next others (if b then some entry else get other fields) ≡ next others (get other fields)
    by_test other others false equal differ = refl
    by_test other others true equal differ =
        keeps others differ
        ∙ next-or_empty keys others (get key fields) differ
        ∙ ap (λ k. next others (get k fields)) (equal refl)

    kept :
        (others : List String)
        → apart (key ∷ keys) others ≡ true
        → get_path others (section (set key entry fields)) ≡ get_path others (section fields)
    kept [] differ = absurd (ground (arith, differ))
    kept (other ∷ others) differ =
        get_path-section other others (set key entry fields)
        ∙ ap (next others) (get-set key other entry fields)
        ∙ by_test other others (key == other) (eq_iff key other).0 differ
        ∙ sym (get_path-section other others fields)

set_path-SetPath :
    (keys : List String) (value before after : Value)
    → set_path keys value before ≡ some after
    → SetPath keys value before after
unfolding set_path SetPath get_path apart
set_path-SetPath [] value before after e = (sym e, λ others differ. absurd (ground (arith, differ)))
set_path-SetPath (key ∷ keys) value null after e = ground (arith, e)
set_path-SetPath (key ∷ keys) value (leaf b rest) after e = ground (arith, e)
set_path-SetPath (key ∷ keys) value (section fields) after e =
    by_inner (set_path keys value (or_empty (get key fields))) refl
      (set_path-SetPath keys value (or_empty (get key fields))) e
  where
    by_inner :
        (inner : Option Value)
        → set_path keys value (or_empty (get key fields)) ≡ inner
        → ((inside : Value)
            → set_path keys value (or_empty (get key fields)) ≡ some inside
            → SetPath keys value (or_empty (get key fields)) inside)
        → set_entry key fields inner ≡ some after
        → SetPath (key ∷ keys) value (section fields) after
    by_inner none ran inside e = ground (arith, e)
    by_inner (some entry) ran inside e =
        subst (SetPath (key ∷ keys) value (section fields)) (some-injective _ _ e)
          (set_entry-SetPath key keys value entry fields (inside entry ran))

-- Where `deep_set` raises nothing: `deep_get` reads the value back at its path, whatever the default, and at a path
-- that parts from it at some key it reads what it read before.
pub deep_get-deep_set :
    (fields after : Fields) (key_path other : String) (value default : Value)
    → deep_set fields key_path value ≡ some (section after)
    → (deep_get after key_path default ≡ value)
      × (apart (split key_path) (split other) ≡ true
          → deep_get after other default ≡ deep_get fields other default)
unfolding deep_set deep_get SetPath
deep_get-deep_set fields after key_path other value default e =
    let (reads, keeps) =
      set_path-SetPath (split key_path) value (section fields) (section after) e in
    (ap or_default reads, λ differ. ap or_default (keeps (split other) differ))
  where
    or_default : Option Value → Value
    or_default found = elim found [ none ↦ default | some value ↦ value ]
