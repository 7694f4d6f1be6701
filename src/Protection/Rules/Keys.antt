-- ===== src/Protection/Rules/Keys.antt =====
-- Keys of rules: rules of different resources and actions do not get into each other's way.
use optorch.Base.{
  ◌≡◌, sym, ap, ◌∙◌, true, false, ◌&&◌, String, List, [], ◌∷◌, ◌++◌, some, arith, if◌then◌else◌,
  ◌==◌, eq_iff, inl, inr, Bool-cases, not_true, str_eq_self,
}
use mathlib.Core.Bool.{true≢false}
use optorch.Base.Dict
use optorch.Registry
use optorch.Base.Dict.{Dict}
use optorch.Base.Texts.{
  ◌<>◌, has_colon, split, join, init, last, split-first, split-last, join-split, init-append,
  last-append,
}
use optorch.Protection.Rules.{
  ProtectionConfig, key_of, register, register_protection, get_protection,
}

-- the parts of a key: the type, the parts of the identifier, the action
split-key_of :
    (t i a : String)
    → has_colon t ≡ false
    → has_colon a ≡ false
    → split (key_of t i a) ≡ t ∷ (split i ++ (a ∷ []))
unfolding key_of
split-key_of t i a ht ha = split-first t (i <> ":" <> a) ht ∙ ap (t ∷◌) (split-last i a ha)

abbrev head : List String → String
head [] = ""
head (part ∷ parts) = part

abbrev tail : List String → List String
tail [] = []
tail (part ∷ parts) = parts

last_of_key : (t i a : String) → last t (split i ++ (a ∷ [])) ≡ a
last_of_key t i a = last-append t (split i) a

pub key_of_injective :
    (t i a t' i' a' : String)
    → has_colon t ≡ false
    → has_colon a ≡ false
    → has_colon t' ≡ false
    → has_colon a' ≡ false
    → key_of t i a ≡ key_of t' i' a'
    → (t ≡ t') × (i ≡ i') × (a ≡ a')
key_of_injective t i a t' i' a' ht ha ht' ha' e =
    let parts = sym (split-key_of t i a ht ha) ∙ ap split e ∙ split-key_of t' i' a' ht' ha' in
    let rest = ap tail parts in
    (
      ap head parts,
      sym (join-split i)
          ∙ ap join (sym (init-append (split i) a) ∙ ap init rest ∙ init-append (split i') a')
          ∙ join-split i',
      sym (last-append "" (split i) a) ∙ ap (last "") rest ∙ last-append "" (split i') a',
    )

key_eq :
    (t i a t' i' a' : String)
    → has_colon t ≡ false
    → has_colon a ≡ false
    → has_colon t' ≡ false
    → has_colon a' ≡ false
    → (key_of t i a == key_of t' i' a') ≡ (t == t' && i == i' && a == a')
key_eq t i a t' i' a' ht ha ht' ha' = elim (Bool-cases (t == t' && i == i' && a == a')) [
  | inl same ↦
      let (et, ei, ea) = all_equal same in
      rw (et, ei, ea) (str_eq_self (key_of t' i' a')) ∙ sym same
  | inr differs ↦
      not_true _ (λ same.
        let (et, ei, ea) =
          key_of_injective t i a t' i' a' ht ha ht' ha'
            ((eq_iff (key_of t i a) (key_of t' i' a')).0 same) in
        true≢false (sym (none_differs et ei ea) ∙ differs))
      ∙ sym differs
]
  where
    all_equal : (t == t' && i == i' && a == a') ≡ true → (t ≡ t') × (i ≡ i') × (a ≡ a')
    all_equal h = (
      ground (arith, eq_iff t t', h),
      ground (arith, eq_iff i i', h),
      ground (arith, eq_iff a a', h),
    )

    none_differs : t ≡ t' → i ≡ i' → a ≡ a' → (t == t' && i == i' && a == a') ≡ true
    none_differs et ei ea = ground (arith, eq_iff t t', eq_iff i i', eq_iff a a')

-- Where neither the types nor the actions have a colon, a rule that is registered is found for its own
-- type, identifier and action, and what is found for any other ones is what was found before.
pub get_protection-register :
    (config : ProtectionConfig) (items : Dict ProtectionConfig) (t i a : String)
    → has_colon t ≡ false
    → has_colon a ≡ false
    → has_colon config.resource_type ≡ false
    → has_colon config.action ≡ false
    → get_protection t i a (register_protection config items) ≡ (
        if config.resource_type == t && config.resource_id == i && config.action == a
        then some config
        else get_protection t i a items)
unfolding get_protection register Registry.get_optional Registry.register
get_protection-register config items t i a ht ha hct hca =
    Dict.get-insert (key_of config.resource_type config.resource_id config.action) (key_of t i a)
      config items
    ∙ ap (λ b. if b then some config else Dict.get (key_of t i a) items)
        (key_eq config.resource_type config.resource_id config.action t i a hct hca ht ha)
