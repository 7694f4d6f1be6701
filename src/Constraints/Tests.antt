-- ===== src/Constraints/Tests.antt =====
-- identity/authorization/constraints on concrete configurations. Numbers stand for floating-point ones.
use optorch.Base.{◌≡◌, refl, true, false, ℕ, ltb, leb, none, some, String, [], ◌∷◌, elem, ok}
use optorch.Base.Dict
use optorch.Constraints.Context.{ContextConstraintConfig}
use optorch.Constraints.Location.{LocationConstraintConfig, Libraries}
use optorch.Constraints.Models.{nothing, DateTime, SubjectContext, ConstraintContext}
use optorch.Constraints.Registry.{
  ConstraintConfig, resource_config, Surroundings, builtins, create, create_registered, type_config,
  resource_class, and_next, evaluate_all,
}
use optorch.Constraints.Registry.Decisions.{evaluate_all-meets, enabled_config, answer}
use optorch.Constraints.Resource
use optorch.Constraints.Resource.{ResourceConstraintConfig, tags_of, IsCleared}
use optorch.Constraints.Time.{TimeConstraintConfig}
use optorch.Registry

abbrev noon : DateTime
noon = record { hour = 12; weekday = 2; time = 43200000000; instant = 100 }

abbrev ann : SubjectContext
ann = record {
  user_id = some "ann";
  org_id = none;
  roles = "editor" ∷ [];
  clearance_level = 3;
  department = none;
  verified = true;
  attributes = [];
}

abbrev request : ConstraintContext ℕ
request = record {
  subject = ann;
  resource = record {
    resource_id = some "r1";
    resource_type = none;
    owner_id = some "ann";
    resource_org = none;
    sensitivity_level = 2;
    tags = "public" ∷ [];
  };
  action = some "read";
  environment = record {
    current_time = some noon;
    ip_address = none;
    country_code = some "XX";
    latitude = none;
    longitude = none;
    user_agent = none;
    estimated_cost = 1;
    budget_remaining = 10;
  };
}

abbrev libraries : Libraries ℕ
libraries = record { upper = λ s. s; in_network = λ client cidr. ok false; le = leb }

abbrev around : Surroundings ℕ
around = record {
  clock = noon;
  libraries = libraries;
  lt = ltb;
  attribute = λ subject attr. nothing;
  load_custom = λ path config. none;
}

abbrev night : TimeConstraintConfig
night = record {
  start_hour = 22;
  end_hour = 6;
  weekday_only = false;
  start_time = none;
  end_time = none;
  after_date = none;
  before_date = none;
}

abbrev owned : ResourceConstraintConfig
owned = record {
  require_ownership = true;
  require_same_org = true;
  min_clearance_level = some 1;
  required_tags = some ("public" ∷ []);
}

abbrev fenced : LocationConstraintConfig ℕ
fenced = record {
  allowed_countries = none;
  blocked_countries = some ("XX" ∷ []);
  allowed_ip_ranges = some ("10.0.0.0/8" ∷ []);
  geofence_bounds = none;
}

abbrev cheap : ContextConstraintConfig ℕ
cheap = record {
  max_cost = some 5;
  min_budget_remaining = none;
  required_roles = none;
  required_all_roles = some ("editor" ∷ []);
  required_attributes = none;
  allowed_actions = none;
}

abbrev blank : String → ConstraintConfig ℕ
blank name = record {
  constraint_type = name;
  enabled = true;
  time = none;
  location = none;
  resource = none;
  context = none;
  custom_class = none;
  custom_config = none;
}

evaluate_all-meets_example : answer around (resource_config owned) request ≡ ok true
unfolding evaluate_all builtins create create_registered type_config resource_class Registry.has
    Registry.get Registry.register Dict.has Dict.get Dict.insert enabled_config Resource.evaluate
    Resource.check_ownership Resource.check_same_org Resource.check_clearance Resource.check_tags
    Resource.has_tags Resource.same and_next elem
evaluate_all-meets_example =
    evaluate_all-meets around [] [] (resource_config owned) (blank "") request refl
