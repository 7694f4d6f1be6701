-- ===== src/Authorization/Memory.antt =====
-- identity/authorization/providers/memory.py: MemoryProvider, without the query of roles in a database.
pub mod Decisions
mod Tests
use Prim.Native.String as S
use optorch.Base.{
  Bool, true, false, not, ◌&&◌, ◌||◌, String, List, [], ◌∷◌, ◌++◌, map, Option, none, some, Outcome,
  ok, raise, if◌then◌else◌, ◌==◌,
}
use optorch.Base.Dict
use optorch.Base.Dict.{Dict}
use optorch.Base.Texts.{◌<>◌}

pub record Policy : Type 0 where
  pub resource : String
  pub action : String

abbrev pub Policies : Type 0
Policies = Dict (List Policy)

unfoldable pub init : Policies
init =
    ("admin", record { resource = "*"; action = "*" } ∷ [])
    ∷ (
      "user",
      record { resource = "workflow"; action = "execute" }
          ∷ record { resource = "data"; action = "read" }
          ∷ [],
    )
    ∷ ("viewer", record { resource = "*"; action = "read" } ∷ [])
    ∷ []

pub record Decision : Type 0 where
  pub result : String
  pub reason : String

-- whether `pattern` ends with "*" and `value` starts with `pattern[:-1]`
unfoldable pub matches_prefix : String → String → Bool
matches_prefix S.[] value = false
matches_prefix (S.◌∷◌ c S.[]) value = S.◌∷◌ c S.[] == "*"
matches_prefix (S.◌∷◌ c (S.◌∷◌ d pattern)) S.[] = false
matches_prefix (S.◌∷◌ c (S.◌∷◌ d pattern)) (S.◌∷◌ e value) =
    S.◌∷◌ c S.[] == S.◌∷◌ e S.[] && matches_prefix (S.◌∷◌ d pattern) value

unfoldable pub matches : String → String → Bool
matches pattern value =
    if pattern == "*"
    then true
    else if pattern == value
    then true
    else if matches_prefix pattern value
    then true
    else false

-- the loop over the policies of a role
unfoldable pub any_policy : List Policy → String → String → Bool
any_policy [] resource_type action = false
any_policy (policy ∷ policies) resource_type action =
    let rest = any_policy policies resource_type action in
    if matches policy.resource resource_type && matches policy.action action then true else rest

-- the loop over the roles: the first that has a matching policy
unfoldable pub role_permitting :
    Option (List Policy) → String → String → String → Option String → Option String
role_permitting none role resource_type action rest = rest
role_permitting (some policies) role resource_type action rest =
    if any_policy policies resource_type action then some role else rest

unfoldable pub find_role : Policies → List String → String → String → Option String
find_role policies [] resource_type action = none
find_role policies (role ∷ roles) resource_type action =
    role_permitting (Dict.get role policies) role resource_type action
      (find_role policies roles resource_type action)

unfoldable pub decision_of : Option String → Decision
decision_of none = record { result = "Deny"; reason = "no matching policy found" }
decision_of (some role) = record {
  result = "Permit";
  reason = "role '" <> role <> "' has permission";
}

-- the roles of the subject, if it has any, and the type of the resource, "*" if it has none
unfoldable pub check_permission :
    Policies → Option (List String) → Option String → String → Decision
check_permission policies none resource_type action = decision_of none
check_permission policies (some roles) none action =
    decision_of (find_role policies roles "*" action)
check_permission policies (some roles) (some resource_type) action =
    decision_of (find_role policies roles resource_type action)

-- the dict that `add_policy` takes, in which any key may be missing
pub record RawPolicy : Type 0 where
  pub role : Option String
  pub raw_resource : Option String
  pub raw_action : Option String

pub data Problem : Type 0 where
  configuration_error : Problem
  key_error : String → Problem

-- `self.policies[role] = []` where the role is new
unfoldable pub with_role : String → Policies → Policies
with_role role policies = if Dict.has role policies then policies else Dict.insert role [] policies

abbrev pub append_policy :
    String → Option String → Option String → Policies → Outcome Problem (Unit {0}) × Policies
append_policy role none action policies = (raise (key_error "resource"), policies)
append_policy role (some resource) none policies = (raise (key_error "action"), policies)
append_policy role (some resource) (some action) policies = (
  ok tt,
  Dict.insert role
      (Dict.get_or role [] policies ++ (record { resource = resource; action = action } ∷ []))
      policies,
)

unfoldable pub add_policy_for :
    Option String → RawPolicy → Policies → Outcome Problem (Unit {0}) × Policies
add_policy_for none policy policies = (raise configuration_error, policies)
add_policy_for (some role) policy policies =
    if role == ""
    then (raise configuration_error, policies)
    else append_policy role policy.raw_resource policy.raw_action (with_role role policies)

unfoldable pub add_policy : RawPolicy → Policies → Outcome Problem (Unit {0}) × Policies
add_policy policy policies = add_policy_for policy.role policy policies

unfoldable pub list_of_role : String → List Policy → List (String × Policy) → List (String × Policy)
list_of_role role [] rest = rest
list_of_role role (p ∷ ps) rest = (role, p) ∷ list_of_role role ps rest

unfoldable pub list_policies : Policies → List (String × Policy)
list_policies [] = []
list_policies ((role, ps) ∷ policies) = list_of_role role ps (list_policies policies)
