-- ===== src/Protection/Rules/Listed.antt =====
-- Rules that are listed for a type are found by their type, identifier and action.
use optorch.Base.{
  ◌≡◌, refl, subst, false, ◌||◌, String, List, [], ◌∷◌, none, some, arith, ◌==◌, eq_iff, All,
  if_both, str_eq_self,
}
use optorch.Base.Dict
use optorch.Base.Dict.{Dict}
use optorch.Registry
use optorch.Protection.Rules.{
  ProtectionConfig, key_of, register, register_protection, register_all, list_by_type,
}

abbrev pub key_of_config : ProtectionConfig → String
key_of_config config = key_of config.resource_type config.resource_id config.action

-- Each entry has the key of its rule, and no key is there twice.
unfoldable pub IsKeyed : Dict ProtectionConfig → Type 0
IsKeyed [] = Unit
IsKeyed ((key, config) ∷ items) =
    (key ≡ key_of_config config) × (Dict.has key items ≡ false) × IsKeyed items

has-insert :
    (k j : String) (v : ProtectionConfig) (items : Dict ProtectionConfig)
    → Dict.has j (Dict.insert k v items) ≡ (k == j || Dict.has j items)
unfolding Dict.has Dict.insert
has-insert k j v [] = refl
has-insert k j v ((i, w) ∷ items) =
    ground (arith, has-insert k j v items, eq_iff i k, eq_iff i j, eq_iff k j)

insert-IsKeyed :
    (config : ProtectionConfig) (items : Dict ProtectionConfig)
    → IsKeyed items
    → IsKeyed (Dict.insert (key_of_config config) config items)
unfolding IsKeyed Dict.insert Dict.has
insert-IsKeyed config [] h = (refl, refl, tt)
insert-IsKeyed config ((j, v) ∷ items) (own, once, rest) =
    if_both IsKeyed (j == key_of_config config) _ _
      (λ same. ((eq_iff j (key_of_config config)).0 same, once, rest))
      (λ differs. (
        own,
        ground (
          arith,
          has-insert (key_of_config config) j config items,
          once,
          differs,
          eq_iff j (key_of_config config),
          eq_iff (key_of_config config) j,
        ),
        insert-IsKeyed config items rest,
      ))

pub register_all-IsKeyed :
    (configs : List ProtectionConfig) (items : Dict ProtectionConfig)
    → IsKeyed items
    → IsKeyed (register_all configs items)
unfolding register_all register Registry.register
register_all-IsKeyed [] items h = h
register_all-IsKeyed (config ∷ configs) items h =
    register_all-IsKeyed configs (register_protection config items) (insert-IsKeyed config items h)

get-absent :
    (k : String) (items : Dict ProtectionConfig)
    → Dict.has k items ≡ false
    → Dict.get k items ≡ none
unfolding Dict.has Dict.get
get-absent k [] h = refl
get-absent k ((j, v) ∷ items) h = ground (arith, get-absent k items, h)

-- a rule of the type, found under its own key
unfoldable pub IsFound : Dict ProtectionConfig → String → ProtectionConfig → Type 0
IsFound whole resource_type config =
    (config.resource_type ≡ resource_type) × (Dict.get (key_of_config config) whole ≡ some config)

list_by_type-part :
    (whole items : Dict ProtectionConfig) (resource_type : String)
    → IsKeyed items
    → ((j : String) (v : ProtectionConfig) → Dict.get j items ≡ some v → Dict.get j whole ≡ some v)
    → All (IsFound whole resource_type) (list_by_type resource_type items)
unfolding IsKeyed list_by_type IsFound Dict.get
list_by_type-part whole [] t h within = tt
list_by_type-part whole ((k, config) ∷ items) t (own, once, rest) within =
    let others =
      list_by_type-part whole items t rest
        (λ j v found. within j v (ground (arith, found, get-absent k items once, eq_iff k j))) in
    if_both (All (IsFound whole t)) (config.resource_type == t) _ _
      (λ same. (
        (
          (eq_iff config.resource_type t).0 same,
          subst (λ key. Dict.get key whole ≡ some config) own
              (within k config (ground (arith, str_eq_self k))),
        ),
        others,
      ))
      (λ _. others)

pub list_by_type-IsFound :
    (items : Dict ProtectionConfig) (resource_type : String)
    → IsKeyed items
    → All (IsFound items resource_type) (list_by_type resource_type items)
list_by_type-IsFound items t h = list_by_type-part items items t h (λ j v found. found)
