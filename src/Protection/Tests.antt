-- ===== src/Protection/Tests.antt =====
-- identity/protection on concrete rules.
use optorch.Base.{
  Option, ◌≡◌, refl, true, false, String, List, [], ◌∷◌, none, some, ok, ◌==◌, ◌&&◌, Bool, ℕ, All,
}
use optorch.Base.Texts.{has_colon}
use optorch.Protection.Enforcement.{builtins}
use optorch.Protection.Manager.{ProtectionManager, check, get_accessible_resources}
use optorch.Protection.Manager.Accessible.{accessible-granted}
use optorch.Protection.Manager.Decisions.{grants, granted, grants-check}
use optorch.Protection.Permissions.{parse_permission, parse_permission_roundtrip}
use optorch.Protection.Rules.{RawRule, ProtectionConfig, register_all, get_protection}

abbrev rule : String → String → String → String → ProtectionConfig
rule id action permission enforcement = record {
  resource_type = "tool";
  resource_id = id;
  action = action;
  permission = permission;
  description = none;
  ui_hint = none;
  enforcement = enforcement;
  fallback = none;
  interactive_approval = false;
  approver_role = none;
}

abbrev rules : List ProtectionConfig
rules =
    rule "mail" "use" "tool:mail:use" "block"
    ∷ rule "web" "use" "tool:web:use" "warn"
    ∷ rule "web" "admin" "tool:admin" "block"
    ∷ []

-- only `use` of `tool:mail` is permitted; the world counts the questions
abbrev permits : String → String → Bool
permits resource action = resource == "tool:mail" && action == "use"

abbrev manager : ProtectionManager String ℕ
manager = record {
  check_permission = λ resource action world. (ok (permits resource action), world);
  protections = register_all rules [];
  enforcement = builtins;
}

parse_permission_roundtrip_example :
    (parse_permission "config:secrets:update" ≡ ("config:secrets", some "update"))
    × (parse_permission "update" ≡ ("update", none))
unfolding has_colon
parse_permission_roundtrip_example = parse_permission_roundtrip "config:secrets" "update" refl

grants-check_example :
    grants (check manager "tool" "web" "use" 0).0
    ≡ granted manager (get_protection "tool" "web" "use" (register_all rules [])) "use" 0
grants-check_example = grants-check manager refl "tool" "web" "use" 0

accessible-granted_example :
    (ids : List String) × (get_accessible_resources manager "tool" "use" 0 ≡ (ok ids, 0))
    × All (λ id. grants (check manager "tool" id "use" 0).0 ≡ true) ids
accessible-granted_example =
    accessible-granted manager permits (λ resource action world. refl) refl rules refl "tool" "use"
      0

abbrev raw : Option String → RawRule
raw permission = record {
  raw_resource_id = some "mail";
  raw_action = some "use";
  raw_permission = permission;
  raw_enforcement = none;
  raw_description = none;
  raw_ui_hint = none;
  raw_fallback = none;
  raw_interactive_approval = none;
  raw_approver_role = none;
}
