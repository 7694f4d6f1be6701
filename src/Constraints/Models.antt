-- ===== src/Constraints/Models.antt =====
-- constraints/models.py: the context that a constraint is evaluated in. Of a `datetime` the model has
-- what the constraints read; the type of floating-point numbers is a parameter.
use optorch.Base.{String, List, Bool, Option, ℕ}
use optorch.Base.Dict.{Dict}

-- a value of `attributes`, or what an attribute of a Python object may hold
pub data Value : Type 0 where
  nothing : Value
  text : String → Value
  number : ℕ → Value
  flag : Bool → Value
  texts : List String → Value

-- `datetime`: `time` counts microseconds of the day, `instant` those since a fixed moment
pub record DateTime : Type 0 where
  pub hour : ℕ
  pub weekday : ℕ
  pub time : ℕ
  pub instant : ℕ

pub record SubjectContext : Type 0 where
  pub user_id : Option String
  pub org_id : Option String
  pub roles : List String
  pub clearance_level : ℕ
  pub department : Option String
  pub verified : Bool
  pub attributes : Dict Value

pub record ResourceContext : Type 0 where
  pub resource_id : Option String
  pub resource_type : Option String
  pub owner_id : Option String
  pub resource_org : Option String
  pub sensitivity_level : ℕ
  pub tags : List String

pub record EnvironmentContext (Float : Type 0) : Type 0 where
  pub current_time : Option DateTime
  pub ip_address : Option String
  pub country_code : Option String
  pub latitude : Option Float
  pub longitude : Option Float
  pub user_agent : Option String
  pub estimated_cost : Float
  pub budget_remaining : Float

pub record ConstraintContext (Float : Type 0) : Type 0 where
  pub subject : SubjectContext
  pub resource : ResourceContext
  pub action : Option String
  pub environment : EnvironmentContext Float
