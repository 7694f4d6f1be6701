-- ===== src/Workflow/Routing.antt =====
-- `RouteResolver` of routing/route_resolver.py. The routing section is a dict of any shape; the values are the ones
-- that the code can meet. `eval` of a condition is a parameter, false where it raises.
pub mod Schema
pub mod Targets
use optorch.Base.{
  ◌≡◌, refl, Bool, true, false, String, List, [], ◌∷◌, Option, none, some, Outcome, ok, raise,
  if◌then◌else◌, ◌==◌,
}
use optorch.Base.Dict
use optorch.Base.Dict.{Dict}
use optorch.Workflow.State.{Value, null, text, State, get}
use optorch.Workflow.Retry.{Failure, type_error, missing_key}

-- the entry "on": the name of a field, or a dict
pub data On : Type 0 where
  no_field : On
  field : String → On
  table : Dict String → On

-- a rule of a dynamic route; an entry may be missing
pub record Rule : Type 0 where
  pub condition : Option String
  pub target : Option (Option String)

-- the entry "conditions": a dict from values to nodes, or a list of rules
pub data Conditions : Type 0 where
  no_conditions : Conditions
  by_value : Dict (Option String) → Conditions
  rules : List Rule → Conditions

pub record RoutingConfig : Type 0 where
  pub route_type : Option String
  pub next : Option String
  pub on : On
  pub conditions : Conditions
  pub default : Option String

abbrev pub type_of : Option String → String
type_of none = "static"
type_of (some route_type) = route_type

module _ {E : Type 0} where
  -- `conditions[value] if value in conditions else default`
  unfoldable pub route_value :
      Conditions → Option String → Value → Outcome (Failure E) (Option String)
  route_value (by_value conditions) default (text value) = elim (Dict.get value conditions) [
    | none ↦ ok default
    | some target ↦ ok target
  ]
  route_value (by_value conditions) default other = ok default
  route_value (rules conditions) default value = ok default
  route_value no_conditions default value = ok default

  unfoldable pub route_conditional :
      On → RoutingConfig → State → Outcome (Failure E) (Option String)
  route_conditional no_field config state = ok config.default
  route_conditional (field name) config state =
      if name == ""
      then ok config.default
      else route_value config.conditions config.default (get name state)
  -- an empty dict is false, and any other cannot be looked up in a dict
  route_conditional (table []) config state = ok config.default
  route_conditional (table (entry ∷ entries)) config state = raise type_error

  unfoldable pub apply_rule :
      (String → State → Bool)
      → Rule
      → State
      → Outcome (Failure E) (Option String)
      → Outcome (Failure E) (Option String)
  apply_rule holds rule state others = elim rule.condition [
    | none ↦ raise missing_key
    | some condition ↦
        if holds condition state
        then elim rule.target [ none ↦ raise missing_key | some target ↦ ok target ]
        else others
  ]

  unfoldable pub route_dynamic :
      (String → State → Bool)
      → List Rule
      → Option String
      → State
      → Outcome (Failure E) (Option String)
  route_dynamic holds [] default state = ok default
  route_dynamic holds (rule ∷ others) default state =
      let later = route_dynamic holds others default state in apply_rule holds rule state later

  unfoldable pub route_rules :
      (String → State → Bool)
      → Conditions
      → Option String
      → State
      → Outcome (Failure E) (Option String)
  route_rules holds no_conditions default state = ok default
  route_rules holds (rules conditions) default state = route_dynamic holds conditions default state
  route_rules holds (by_value []) default state = ok default
  route_rules holds (by_value (entry ∷ entries)) default state = raise type_error

  -- without `return_to`, which no caller sets
  unfoldable pub resolve_type :
      (String → State → Bool) → String → RoutingConfig → State → Outcome (Failure E) (Option String)
  resolve_type holds route_type config state =
      if route_type == "end"
      then ok none
      else if route_type == "static"
      then ok config.next
      else if route_type == "conditional"
      then route_conditional config.on config state
      else if route_type == "dynamic"
      then route_rules holds config.conditions config.default state
      else ok config.default

  unfoldable pub resolve :
      (String → State → Bool) → Option RoutingConfig → State → Outcome (Failure E) (Option String)
  resolve holds none state = ok none
  resolve holds (some config) state = resolve_type holds (type_of config.route_type) config state
