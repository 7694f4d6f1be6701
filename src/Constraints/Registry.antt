-- ===== src/Constraints/Registry.antt =====
-- constraints/registry.py: the classes of constraints by name, and the evaluation of a list of
-- configurations. What a constraint raises is of type E; importing a custom class and calling it is
-- `load_custom`, none where that raises.
pub mod Decisions
use optorch.Base.{
  ◌≡◌, refl, ap, ◌∙◌, ◌↔◌, ◌⊎◌, inl, inr, true, false, Bool, not, ◌&&◌, Option, none, some, String,
  List, [], ◌∷◌, ◌++◌, All, Outcome, ok, raise, ◌>>=◌, arith, if◌then◌else◌, ◌==◌, eq_iff,
}
use optorch.Base.Dict
use optorch.Base.Dict.{Dict}
use optorch.Constraints.Context
use optorch.Constraints.Context.{ContextConstraintConfig}
use optorch.Constraints.Location
use optorch.Constraints.Location.{LocationConstraintConfig, Libraries}
use optorch.Constraints.Models.{Value, DateTime, SubjectContext, ConstraintContext}
use optorch.Constraints.Resource
use optorch.Constraints.Resource.{ResourceConstraintConfig}
use optorch.Constraints.Time
use optorch.Constraints.Time.{TimeConstraintConfig}
use optorch.Registry
use optorch.Registry.{RegistryError}

pub record ConstraintConfig (Float : Type 0) : Type 0 where
  pub constraint_type : String
  pub enabled : Bool
  pub time : Option TimeConstraintConfig
  pub location : Option (LocationConstraintConfig Float)
  pub resource : Option ResourceConstraintConfig
  pub context : Option (ContextConstraintConfig Float)
  pub custom_class : Option String
  pub custom_config : Option (Dict Value)

-- the subclasses of `BaseConstraintConfig`
pub data TypeConfig (Float : Type 0) : Type 0 where
  time_config : TimeConstraintConfig → TypeConfig Float
  location_config : LocationConstraintConfig Float → TypeConfig Float
  resource_config : ResourceConstraintConfig → TypeConfig Float
  context_config : ContextConstraintConfig Float → TypeConfig Float

pub data Problem : Type 0 where
  type_error : Problem
  key_error : RegistryError → Problem
  -- what a custom constraint raises
  custom_error : String → Problem

-- a constraint, by its `evaluate`
abbrev pub ConstraintProvider : Type 0 → Type 0
ConstraintProvider Float = ConstraintContext Float → Outcome Problem Bool

abbrev pub ProviderClass : Type 0 → Type 0
ProviderClass Float = TypeConfig Float → Outcome Problem (ConstraintProvider Float)

-- what the constraints read of the world and of libraries
pub record Surroundings (Float : Type 0) : Type 0 where
  pub clock : DateTime
  pub libraries : Libraries Float
  pub lt : Float → Float → Bool
  pub attribute : SubjectContext → String → Value
  pub load_custom : String → Dict Value → Option (ConstraintProvider Float)

module _ {Float : Type 0} (around : Surroundings Float) where
  unfoldable pub time_class : ProviderClass Float
  time_class (time_config config) = ok (λ c. ok (Time.evaluate config around.clock c))
  time_class (location_config config) = raise type_error
  time_class (resource_config config) = raise type_error
  time_class (context_config config) = raise type_error

  abbrev pub as_problem : Outcome RegistryError Bool → Outcome Problem Bool
  as_problem (ok answer) = ok answer
  as_problem (raise problem) = raise (key_error problem)

  unfoldable pub location_class : ProviderClass Float
  location_class (location_config config) =
      ok (λ c. as_problem (Location.evaluate around.libraries config c))
  location_class (time_config config) = raise type_error
  location_class (resource_config config) = raise type_error
  location_class (context_config config) = raise type_error

  unfoldable pub resource_class : ProviderClass Float
  resource_class (resource_config config) = ok (λ c. ok (Resource.evaluate config c))
  resource_class (time_config config) = raise type_error
  resource_class (location_config config) = raise type_error
  resource_class (context_config config) = raise type_error

  unfoldable pub context_class : ProviderClass Float
  context_class (context_config config) =
      ok (λ c. ok (Context.evaluate around.lt around.attribute config c))
  context_class (time_config config) = raise type_error
  context_class (location_config config) = raise type_error
  context_class (resource_config config) = raise type_error

  unfoldable pub builtins : Dict (ProviderClass Float)
  unfolding Registry.register Dict.insert
  builtins = Registry.register "context" context_class (
      Registry.register "resource" resource_class
        (Registry.register "location" location_class (Registry.register "time" time_class [])))

  abbrev pub or_given {ℓ κ} :
      {A : Type ℓ} {B : Type κ} → Bool → (A → B) → Option A → Option B → Option B
  or_given true wrap (some a) others = some (wrap a)
  or_given true wrap none others = others
  or_given false wrap a others = others

  -- the configuration that belongs to the type
  unfoldable pub type_config : ConstraintConfig Float → Option (TypeConfig Float)
  type_config config = or_given (config.constraint_type == "time") time_config config.time (
      or_given (config.constraint_type == "location") location_config config.location (
        or_given (config.constraint_type == "resource") resource_config config.resource
          (or_given (config.constraint_type == "context") context_config config.context none)))

  abbrev pub Created : Type 0
  Created = Outcome Problem (Option (ConstraintProvider Float))

  abbrev pub constructed :
      Outcome RegistryError (ProviderClass Float) → Option (TypeConfig Float) → Created
  constructed (raise problem) config = raise (key_error problem)
  constructed (ok provider_class) none = ok none
  constructed (ok provider_class) (some config) =
      provider_class config >>= λ provider. ok (some provider)

  unfoldable pub create_registered : Dict (ProviderClass Float) → ConstraintConfig Float → Created
  create_registered providers config =
      if not (Registry.has config.constraint_type providers)
      then ok none
      else constructed (Registry.get config.constraint_type providers) (type_config config)

  -- `config.custom_config or {}`
  abbrev pub or_empty : Option (Dict Value) → Dict Value
  or_empty none = []
  or_empty (some d) = d

  -- the class path, if one is given that is not empty
  abbrev pub create_custom_or : ConstraintConfig Float → Option String → Created → Created
  create_custom_or config none others = others
  create_custom_or config (some path) others =
      if path == "" then others else ok (around.load_custom path (or_empty config.custom_config))

  unfoldable pub create : Dict (ProviderClass Float) → ConstraintConfig Float → Created
  create providers config =
      let others = create_registered providers config in
      if not config.enabled
      then ok none
      else if config.constraint_type == "custom"
      then create_custom_or config config.custom_class others
      else others

  -- one round of the loop of `evaluate_all`, with the rest of it
  unfoldable pub and_next :
      Created → ConstraintContext Float → Outcome Problem Bool → Outcome Problem Bool
  and_next (raise problem) context rest = raise problem
  and_next (ok none) context rest = rest
  and_next (ok (some provider)) context rest =
      provider context >>= λ met. if not met then ok false else rest

  unfoldable pub evaluate_all :
      Dict (ProviderClass Float)
      → List (ConstraintConfig Float)
      → ConstraintContext Float
      → Outcome Problem Bool
  evaluate_all providers [] context = ok true
  evaluate_all providers (config ∷ constraints) context =
      and_next (create providers config) context (evaluate_all providers constraints context)
