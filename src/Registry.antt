-- ===== src/Registry.antt =====
-- registry.py: the table by name on which the registries of the framework are built.
mod Tests
use optorch.Base.{
  ◌≡◌, refl, Bool, true, false, String, List, [], ◌∷◌, Option, none, some, Outcome, ok, raise,
  arith, if◌then◌else◌, ◌==◌, eq_iff,
}
use optorch.Base.Dict
use optorch.Base.Dict.{Dict, dict_laws}

-- `KeyError`, with the key that is not registered
pub data RegistryError : Type 0 where
  not_registered : String → RegistryError

module _ {T : Type 0} where
  unfoldable pub register : String → T → Dict T → Dict T
  register key item items = Dict.insert key item items

  unfoldable pub get : String → Dict T → Outcome RegistryError T
  get key items = elim (Dict.get key items) [
    | none ↦ raise (not_registered key)
    | some item ↦ ok item
  ]

  unfoldable pub get_optional : String → Dict T → Option T
  get_optional key items = Dict.get key items

  unfoldable pub has : String → Dict T → Bool
  has key items = Dict.has key items

  unfoldable pub unregister : String → Dict T → Dict T
  unregister key items = Dict.erase key items

  unfoldable pub list_keys : Dict T → List String
  list_keys items = Dict.keys items

  unfoldable pub clear : Dict T → Dict T
  clear items = []

-- The calls that change a registry.
pub data Change (T : Type 0) : Type 0 where
  registered : String → T → Change T
  unregistered : String → Change T
  cleared : Change T

module _ {T : Type 0} where
  pub apply : Change T → Dict T → Dict T
  unfolding register unregister clear
  apply (registered key item) items = register key item items
  apply (unregistered key) items = unregister key items
  apply cleared items = clear items

  pub apply_all : List (Change T) → Dict T → Dict T
  apply_all [] items = items
  apply_all (c ∷ cs) items = apply_all cs (apply c items)

  -- The item that the last change of a name leaves.
  pub latest : String → List (Change T) → Option T → Option T
  latest key [] before = before
  latest key (registered j item ∷ cs) before =
      latest key cs (if j == key then some item else before)
  latest key (unregistered j ∷ cs) before = latest key cs (if j == key then none else before)
  latest key (cleared ∷ cs) before = latest key cs none

  get_optional-apply_all :
      (key : String) (cs : List (Change T)) (items : Dict T)
      → get_optional key (apply_all cs items) ≡ latest key cs (get_optional key items)
  unfolding get_optional apply_all apply latest Dict.get
  get_optional-apply_all key [] items = refl
  get_optional-apply_all key (registered j item ∷ cs) items =
      rw (← Dict.get-insert j key item items)
        (get_optional-apply_all key cs (Dict.insert j item items))
  get_optional-apply_all key (unregistered j ∷ cs) items =
      rw (← Dict.get-erase j key items) (get_optional-apply_all key cs (Dict.erase j items))
  get_optional-apply_all key (cleared ∷ cs) items = get_optional-apply_all key cs []

  abbrev pub found : String → Option T → Outcome RegistryError T
  found key none = raise (not_registered key)
  found key (some item) = ok item

  abbrev pub is_there : Option T → Bool
  is_there none = false
  is_there (some item) = true

  -- After any changes of an empty registry each reading method answers by the last change of the
  -- name: `get_optional` gives its item or none, `get` returns it or raises `KeyError`, `has` says
  -- whether there is one.
  pub reads-latest :
      (key : String) (cs : List (Change T))
      → (get_optional key (apply_all cs []) ≡ latest key cs none)
        × (get key (apply_all cs []) ≡ found key (latest key cs none))
        × (has key (apply_all cs []) ≡ is_there (latest key cs none))
  unfolding get_optional get has Dict.get
  reads-latest key cs =
      let same = get_optional-apply_all key cs [] in
      (same, ground (arith, same), ground (arith, same, Dict.has-get key (apply_all cs [])))
