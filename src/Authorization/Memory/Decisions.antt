-- ===== src/Authorization/Memory/Decisions.antt =====
-- Which accesses are permitted, and what a new policy adds.
use optorch.Base.{
  ◌≡◌, refl, sym, ap, ◌∙◌, ◌≢◌, Bool, true, false, ◌&&◌, ◌||◌, String, List, [], ◌∷◌, ◌++◌, Option,
  none, some, ok, any, elem, arith, if_both, not_true, ◌==◌, eq_iff,
}
use optorch.Base.Dict
use optorch.Base.Dict.{Dict}
use optorch.Authorization.Memory.{
  Policy, Policies, matches, any_policy, role_permitting, find_role, decision_of, check_permission,
  with_role, add_policy_for, add_policy,
}

unfoldable pub permits : Policies → List String → String → String → Bool
permits policies roles t a = (check_permission policies (some roles) (some t) a).result == "Permit"

-- a role has a policy that matches
unfoldable pub has_permission : Policies → String → String → String → Bool
has_permission policies t a role = any_policy (Dict.get_or role [] policies) t a

abbrev is_found : Option String → Bool
is_found none = false
is_found (some role) = true

permits-found : (found : Option String) → ((decision_of found).result == "Permit") ≡ is_found found
unfolding decision_of
permits-found none = refl
permits-found (some role) = refl

found-any :
    (policies : Policies) (roles : List String) (t a : String)
    → is_found (find_role policies roles t a) ≡ any (has_permission policies t a) roles
unfolding find_role any has_permission role_permitting Dict.get_or any_policy
found-any policies [] t a = refl
found-any policies (role ∷ roles) t a = ground (arith, found-any policies roles t a)

-- `check_permission` permits exactly if one of the roles has a policy whose resource pattern matches the
-- type and whose action pattern matches the action; a role that has no policies permits nothing.
pub permits-any :
    (policies : Policies) (roles : List String) (t a : String)
    → permits policies roles t a ≡ any (has_permission policies t a) roles
unfolding permits check_permission
permits-any policies roles t a =
    permits-found (find_role policies roles t a) ∙ found-any policies roles t a

any_policy-append :
    (ps : List Policy) (p : Policy) (t a : String)
    → any_policy (ps ++ (p ∷ [])) t a
      ≡ (any_policy ps t a || matches p.resource t && matches p.action a)
unfolding any_policy
any_policy-append [] p t a = ground arith
any_policy-append (q ∷ ps) p t a = ground (arith, any_policy-append ps p t a)

get_or-with_role :
    (role j : String) (policies : Policies)
    → Dict.get_or j [] (with_role role policies) ≡ Dict.get_or j [] policies
unfolding with_role
get_or-with_role role j policies =
    if_both (λ (d : Policies). Dict.get_or j [] d ≡ Dict.get_or j [] policies)
      (Dict.has role policies) policies (Dict.insert role [] policies) (λ _. refl)
      (λ missing. ground (
        arith,
        Dict.get_or-insert role j [] [] policies,
        Dict.get_or-absent role [] policies missing,
        eq_iff role j,
      ))

-- the policies with one more for a role
added : String → Policy → Policies → Policies
added role p policies =
    Dict.insert role (Dict.get_or role [] (with_role role policies) ++ (p ∷ []))
      (with_role role policies)

has_permission-added :
    (role : String) (p : Policy) (policies : Policies) (t a j : String)
    → has_permission (added role p policies) t a j
      ≡ (has_permission policies t a j || role == j && (matches p.resource t && matches p.action a))
unfolding has_permission added
has_permission-added role p policies t a j =
    let before = with_role role policies in
    ap (λ ps. any_policy ps t a)
      (Dict.get_or-insert role j (Dict.get_or role [] before ++ (p ∷ [])) [] before)
    ∙ ground (
      arith,
      any_policy-append (Dict.get_or role [] before) p t a,
      get_or-with_role role role policies,
      get_or-with_role role j policies,
      eq_iff role j,
    )

any-added :
    (role : String) (p : Policy) (policies : Policies) (t a : String) (roles : List String)
    → any (has_permission (added role p policies) t a) roles ≡ (
        any (has_permission policies t a) roles
        || elem role roles && (matches p.resource t && matches p.action a))
unfolding any elem
any-added role p policies t a [] = refl
any-added role p policies t a (j ∷ roles) =
    ground (arith, has_permission-added role p policies t a j, any-added role p policies t a roles)

-- Adding a complete policy for a named role succeeds, and afterwards exactly that is permitted which was
-- permitted before or is asked with this role for a type and an action that the new policy matches.
pub permits-add_policy :
    (role resource action : String) (policies : Policies)
    → role ≢ ""
    → let after =
        add_policy
          (record { role = some role; raw_resource = some resource; raw_action = some action })
          policies in
      (after.0 ≡ ok tt)
      × ((roles : List String) (t a : String)
          → permits after.1 roles t a ≡ (
              permits policies roles t a
              || elem role roles && (matches resource t && matches action a)))
unfolding add_policy add_policy_for added
permits-add_policy role resource action policies named =
    let p : Policy = record { resource = resource; action = action } in
    rw (not_true (role == "") (λ e. named ((eq_iff role "").0 e))) (
      refl,
      λ roles t a.
          permits-any (added role p policies) roles t a
          ∙ any-added role p policies t a roles
          ∙ ap (λ before. before || elem role roles && (matches resource t && matches action a))
              (sym (permits-any policies roles t a)),
    )
