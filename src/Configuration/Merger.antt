-- ===== src/Configuration/Merger.antt =====
-- config/merger.py: nested dicts are read, written and merged. A dict is the list of its entries, in the order of their
-- insertion; copies are left out, since nothing here is changed in place.
mod Tests
pub mod Entries
pub mod Paths
pub mod Overrides
pub mod Distinct
use Prim.Native.Nat.{Ordering, compare}
use Prim.Native.Char.{Char, code}
use Prim.Native.String as S
use optorch.Base.{
  ◌≡◌, refl, Bool, true, false, String, List, [], ◌∷◌, Option, none, some, Outcome, ok, raise,
  if◌then◌else◌, ◌==◌,
}

-- The values of a configuration; any other value than None and a dict has its truth value and a text for the rest.
mutual
  pub data Value : Type 0 where
    null : Value
    leaf : Bool → String → Value
    section : Fields → Value

  pub data Fields : Type 0 where
    nil : Fields
    field : String → Value → Fields → Fields

unfoldable pub get : String → Fields → Option Value
get key nil = none
get key (field name value fields) = if name == key then some value else get key fields

-- `data[key] = value`: an old key keeps its place
unfoldable pub set : String → Value → Fields → Fields
set key value nil = field key value nil
set key value (field name old fields) =
    if name == key then field name value fields else field name old (set key value fields)

-- `data.pop(key, None)`, and the dict of the entries of another name
unfoldable pub pop : String → Fields → Fields
pop key nil = nil
pop key (field name value fields) =
    let rest = pop key fields in if name == key then rest else field name value rest

abbrev pub truthy : Value → Bool
truthy null = false
truthy (leaf b rest) = b
truthy (section nil) = false
truthy (section (field name value fields)) = true

abbrev pub is_dot : Char → Bool
is_dot c = elim (compare (code c) b'.') [ Ordering.eq ↦ true | _ ↦ false ]

abbrev onto_first : Char → List String → List String
onto_first c [] = (S.◌∷◌ c S.[]) ∷ []
onto_first c (part ∷ parts) = (S.◌∷◌ c part) ∷ parts

-- `key_path.split(".")`
unfoldable pub split : String → List String
split S.[] = S.[] ∷ []
split (S.◌∷◌ c s) = let rest = split s in if is_dot c then S.[] ∷ rest else onto_first c rest

-- the loop of `deep_get` from a value on
unfoldable pub get_path : List String → Value → Option Value
get_path [] current = some current
get_path (key ∷ keys) null = none
get_path (key ∷ keys) (leaf b rest) = none
get_path (key ∷ keys) (section fields) = elim (get key fields) [
  | none ↦ none
  | some value ↦ get_path keys value
]

unfoldable pub deep_get : Fields → String → Value → Value
deep_get fields key_path default = elim (get_path (split key_path) (section fields)) [
  | none ↦ default
  | some value ↦ value
]

-- what the entry under a key of the path is replaced with
abbrev pub or_empty : Option Value → Value
or_empty none = section nil
or_empty (some value) = value

abbrev pub set_entry : String → Fields → Option Value → Option Value
set_entry key fields none = none
set_entry key fields (some value) = some (section (set key value fields))

-- The loop of `deep_set` from a value on, and its assignment; none is the TypeError for a value that is no dict. A
-- path has at least one key.
unfoldable pub set_path : List String → Value → Value → Option Value
set_path [] value current = some value
set_path (key ∷ keys) value null = none
set_path (key ∷ keys) value (leaf b rest) = none
set_path (key ∷ keys) value (section fields) =
    set_entry key fields (set_path keys value (or_empty (get key fields)))

unfoldable pub deep_set : Fields → String → Value → Option Value
deep_set fields key_path value = set_path (split key_path) value (section fields)

-- the test `value.get("__replace__")`
abbrev pub or_null : Option Value → Value
or_null none = null
or_null (some value) = value

unfoldable pub replaces : Fields → Bool
replaces fields = truthy (or_null (get "__replace__" fields))

-- a section onto the value of the base, with the merge of both for the case that this is a section too
abbrev pub onto : Fields → Option Value → (Fields → Fields) → Value
onto override none merge = section override
onto override (some null) merge = section override
onto override (some (leaf b rest)) merge = section override
onto override (some (section base)) merge = section (merge base)

unfoldable mutual
  pub merge_entry : String → Value → Fields → Fields
  merge_entry key null base = pop key base
  merge_entry key (leaf b rest) base = set key (leaf b rest) base
  merge_entry key (section override) base =
      let merged = onto override (get key base) (λ fields. deep_merge fields override) in
      if replaces override
      then set key (section (pop "__replace__" override)) base
      else set key merged base

  pub deep_merge : Fields → Fields → Fields
  deep_merge base nil = base
  deep_merge base (field key value override) = deep_merge (merge_entry key value base) override
