-- ===== src/Protection/Manager/Accessible.antt =====
-- The resources that are listed as accessible, and the checks of each of them.
use optorch.Base.{
  ◌≡◌, refl, sym, ap, subst, ◌∙◌, true, Bool, String, List, [], ◌∷◌, some, ok, arith, if◌then◌else◌,
  ◌==◌, eq_iff, All, if_both,
}
use optorch.Base.Dict
use optorch.Base.Dict.{Dict}
use optorch.Registry
use optorch.Protection.Enforcement.{builtins}
use optorch.Protection.Manager.{
  ProtectionManager, check, decide, accessible, collect, prepend, get_accessible_resources,
}
use optorch.Protection.Manager.Decisions.{grants, granted, granted_by, grants-check}
use optorch.Protection.Permissions.{parse_permission, or_else}
use optorch.Protection.Rules.{ProtectionConfig, key_of, register_all, get_protection, list_by_type}
use optorch.Protection.Rules.Listed.{IsKeyed, register_all-IsKeyed, IsFound, list_by_type-IsFound}

module _ {E W : Type 0} (manager : ProtectionManager E W) (permits : String → String → Bool)
    (pure : (resource action : String) (world : W)
      → manager.check_permission resource action world
        ≡ (ok (permits resource action), world)) where
  -- what the identity manager says of a rule
  permitted : ProtectionConfig → String → Bool
  permitted p action =
      permits (parse_permission p.permission).0 (or_else (parse_permission p.permission).1 action)

  decide-pure :
      (p : ProtectionConfig) (action : String) (world : W)
      → decide manager p action world ≡ (ok (permitted p action), world)
  unfolding decide permitted
  decide-pure p action world = pure _ _ world

  -- the identifiers of the rules for the action that the identity manager permits
  pub permitted_ids : List ProtectionConfig → String → List String
  permitted_ids [] action = []
  permitted_ids (p ∷ ps) action =
      let rest = permitted_ids ps action in
      if p.action == action
      then (if permitted p action then p.resource_id ∷ rest else rest)
      else rest

  accessible-pure :
      (ps : List ProtectionConfig) (action : String) (world : W)
      → accessible manager ps action world ≡ (ok (permitted_ids ps action), world)
  unfolding accessible permitted_ids collect prepend
  accessible-pure [] action world = refl
  accessible-pure (p ∷ ps) action world =
      ground (arith, accessible-pure ps action world, decide-pure p action world)

  granted-permitted :
      (p : ProtectionConfig) (action : String) (world : W)
      → permitted p action ≡ true
      → granted manager (some p) action world ≡ true
  unfolding granted granted_by
  granted-permitted p action world h =
      ap (λ answer. granted_by p answer.0) (decide-pure p action world) ∙ rw h refl

  grants-found :
      manager.enforcement ≡ builtins
      → (t action : String) (world : W) (p : ProtectionConfig) → IsFound manager.protections t p
      → p.action ≡ action
      → permitted p action ≡ true
      → grants (check manager t p.resource_id action world).0 ≡ true
  unfolding IsFound get_protection Registry.get_optional
  grants-found builtin t action world p (own, found) same h =
      grants-check manager builtin t p.resource_id action world
      ∙ ap (λ rule. granted manager rule action world)
          (ap (λ key. Dict.get key manager.protections)
              (λ i. key_of (sym own i) p.resource_id (sym same i))
            ∙ found)
      ∙ granted-permitted p action world h

  grants-listed :
      manager.enforcement ≡ builtins
      → (t action : String) (world : W) (ps : List ProtectionConfig)
      → All (IsFound manager.protections t) ps
      → All (λ id. grants (check manager t id action world).0 ≡ true) (permitted_ids ps action)
  unfolding permitted_ids
  grants-listed builtin t action world [] h = tt
  grants-listed builtin t action world (p ∷ ps) (found, others) =
      let rest = grants-listed builtin t action world ps others in
      if_both (All (λ id. grants (check manager t id action world).0 ≡ true)) (p.action == action) _
        _
        (λ same.
          if_both (All (λ id. grants (check manager t id action world).0 ≡ true))
            (permitted p action) _ _
            (λ yes. (
              grants-found builtin t action world p found ((eq_iff p.action action).0 same) yes,
              rest,
            ))
            (λ _. rest))
        (λ _. rest)

-- Where the rules were registered under their own keys, the enforcement strategies are the framework's
-- and the identity manager answers by the resource and the action alone, `get_accessible_resources`
-- returns a list, and a check of each resource in it for the same type and action grants access.
pub accessible-granted :
    {E W : Type 0} (manager : ProtectionManager E W) (permits : String → String → Bool)
    → ((resource action : String) (world : W)
        → manager.check_permission resource action world ≡ (ok (permits resource action), world))
    → manager.enforcement ≡ builtins
    → (configs : List ProtectionConfig) → manager.protections ≡ register_all configs []
    → (resource_type action : String) (world : W)
    → (ids : List String) × (get_accessible_resources manager resource_type action world
        ≡ (ok ids, world))
      × All (λ id. grants (check manager resource_type id action world).0 ≡ true) ids
unfolding get_accessible_resources IsKeyed
accessible-granted manager permits pure builtin configs built t action world =
    let listed = list_by_type t manager.protections in
    (
      permitted_ids manager permits pure listed action,
      accessible-pure manager permits pure listed action world,
      grants-listed manager permits pure builtin t action world listed (
          list_by_type-IsFound manager.protections t
            (subst IsKeyed (sym built) (register_all-IsKeyed configs [] tt))),
    )
