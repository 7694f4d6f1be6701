-- ===== src/Constraints/Registry/Decisions.antt =====
-- What the evaluation of a list of constraints decides.
use optorch.Base.{
  ◌≡◌, ◌≢◌, refl, ap, subst, ◌↔◌, true, false, Bool, not, none, some, List, [], ◌∷◌, ◌++◌, All,
  Outcome, ok, raise, ◌>>=◌, arith, if◌then◌else◌, eq_iff,
}
use optorch.Base.Dict
use optorch.Base.Dict.{Dict}
use optorch.Constraints.Context
use optorch.Constraints.Location
use optorch.Constraints.Models.{ConstraintContext}
use optorch.Constraints.Resource
use optorch.Constraints.Time
use optorch.Constraints.Registry.{
  ConstraintConfig, TypeConfig, time_config, location_config, resource_config, context_config,
  Problem, ProviderClass, Surroundings, time_class, location_class, resource_class, context_class,
  as_problem, builtins, type_config, create_registered, create, and_next, evaluate_all, Created,
}
use optorch.Registry

module _ {Float : Type 0} (around : Surroundings Float) where
  -- a created constraint is met, or nothing was created
  unfoldable pub IsSatisfied : Created around → ConstraintContext Float → Type 0
  IsSatisfied (raise problem) context = ⊥
  IsSatisfied (ok none) context = Unit
  IsSatisfied (ok (some provider)) context = provider context ≡ ok true

  and_next-met :
      (met : Outcome Problem Bool) (rest : Outcome Problem Bool)
      → (met >>= λ b. if not b then ok false else rest) ≡ ok true
        ↔ (met ≡ ok true) × (rest ≡ ok true)
  and_next-met (raise problem) rest = ((λ h. ground (arith, h)), (λ h. ground (arith, h.0)))
  and_next-met (ok true) rest = ((λ h. (refl, h)), (λ h. h.1))
  and_next-met (ok false) rest = ((λ h. ground (arith, h)), (λ h. ground (arith, h.0)))

  and_next_iff :
      (created : Created around) (context : ConstraintContext Float) (rest : Outcome Problem Bool)
      → and_next around created context rest ≡ ok true
        ↔ IsSatisfied created context × (rest ≡ ok true)
  unfolding and_next IsSatisfied
  and_next_iff (raise problem) context rest = ((λ h. ground (arith, h)), (λ h. absurd h.0))
  and_next_iff (ok none) context rest = ((λ h. (tt, h)), (λ h. h.1))
  and_next_iff (ok (some provider)) context rest = and_next-met (provider context) rest

  -- `evaluate_all` returns True exactly if for every configuration in the list either no constraint is
  -- created from it or the one that is created is met; in particular nothing raises then.
  pub evaluate_all_iff :
      (providers : Dict (ProviderClass Float)) (constraints : List (ConstraintConfig Float))
      (context : ConstraintContext Float)
      → evaluate_all around providers constraints context ≡ ok true
        ↔ All (λ config. IsSatisfied (create around providers config) context) constraints
  unfolding evaluate_all
  evaluate_all_iff providers [] context = ((λ _. tt), (λ _. refl))
  evaluate_all_iff providers (config ∷ constraints) context =
      let here =
        and_next_iff (create around providers config) context
          (evaluate_all around providers constraints context) in
      let others = evaluate_all_iff providers constraints context in
      ((λ h. ((here.0 h).0, others.0 (here.0 h).1)), (λ h. here.1 (h.0, others.1 h.1)))

  create-unknown :
      (providers : Dict (ProviderClass Float)) (config : ConstraintConfig Float)
      → Registry.has config.constraint_type providers ≡ false
      → config.constraint_type ≢ "custom"
      → create around providers config ≡ ok none
  unfolding create create_registered
  create-unknown providers config unknown plain =
      ground (arith, unknown, eq_iff config.constraint_type "custom", plain)

  -- A constraint of a type that is not registered and is not "custom" decides nothing: the list is
  -- evaluated as if the constraint were not there.
  pub evaluate_all-unknown :
      (providers : Dict (ProviderClass Float)) (front back : List (ConstraintConfig Float))
      (config : ConstraintConfig Float) (context : ConstraintContext Float)
      → Registry.has config.constraint_type providers ≡ false
      → config.constraint_type ≢ "custom"
      → evaluate_all around providers (front ++ (config ∷ back)) context
        ≡ evaluate_all around providers (front ++ back) context
  unfolding evaluate_all and_next
  evaluate_all-unknown providers [] back config context unknown plain =
      ap (λ created. and_next around created context (evaluate_all around providers back context))
        (create-unknown providers config unknown plain)
  evaluate_all-unknown providers (first ∷ front) back config context unknown plain =
      ap (and_next around (create around providers first) context)
        (evaluate_all-unknown providers front back config context unknown plain)

  -- an enabled configuration of a type, with any other sections
  unfoldable pub enabled_config : TypeConfig Float → ConstraintConfig Float → ConstraintConfig Float
  enabled_config (time_config c) base = record {
    constraint_type = "time";
    enabled = true;
    time = some c;
    location = base.location;
    resource = base.resource;
    context = base.context;
    custom_class = base.custom_class;
    custom_config = base.custom_config;
  }
  enabled_config (location_config c) base = record {
    constraint_type = "location";
    enabled = true;
    time = base.time;
    location = some c;
    resource = base.resource;
    context = base.context;
    custom_class = base.custom_class;
    custom_config = base.custom_config;
  }
  enabled_config (resource_config c) base = record {
    constraint_type = "resource";
    enabled = true;
    time = base.time;
    location = base.location;
    resource = some c;
    context = base.context;
    custom_class = base.custom_class;
    custom_config = base.custom_config;
  }
  enabled_config (context_config c) base = record {
    constraint_type = "context";
    enabled = true;
    time = base.time;
    location = base.location;
    resource = base.resource;
    context = some c;
    custom_class = base.custom_class;
    custom_config = base.custom_config;
  }

  -- the answer of the constraint of a type
  unfoldable pub answer : TypeConfig Float → ConstraintContext Float → Outcome Problem Bool
  answer (time_config c) context = ok (Time.evaluate c around.clock context)
  answer (location_config c) context =
      as_problem around (Location.evaluate around.libraries c context)
  answer (resource_config c) context = ok (Resource.evaluate c context)
  answer (context_config c) context = ok (Context.evaluate around.lt around.attribute c context)

  create-enabled :
      (c : TypeConfig Float) (base : ConstraintConfig Float)
      → create around (builtins around) (enabled_config c base) ≡ ok (some (answer c))
  unfolding create create_registered builtins type_config enabled_config answer time_class
      location_class resource_class context_class Registry.has Registry.get Registry.register
      Dict.has Dict.get Dict.insert
  create-enabled (time_config c) base = refl
  create-enabled (location_config c) base = refl
  create-enabled (resource_config c) base = refl
  create-enabled (context_config c) base = refl

  All-middle :
      (P : ConstraintConfig Float → Type 0) (front : List (ConstraintConfig Float))
      (c : ConstraintConfig Float) (back : List (ConstraintConfig Float))
      → All P (front ++ (c ∷ back))
      → P c
  All-middle P [] c back h = h.0
  All-middle P (first ∷ front) c back h = All-middle P front c back h.1

  -- With the classes that the framework registers, a context that `evaluate_all` lets pass meets every
  -- enabled time, location, resource and context constraint of the list that has its configuration.
  pub evaluate_all-meets :
      (front back : List (ConstraintConfig Float)) (c : TypeConfig Float)
      (base : ConstraintConfig Float) (context : ConstraintContext Float)
      → evaluate_all around (builtins around) (front ++ (enabled_config c base ∷ back)) context
        ≡ ok true
      → answer c context ≡ ok true
  unfolding IsSatisfied
  evaluate_all-meets front back c base context h =
      subst (λ created. IsSatisfied created context) (create-enabled c base)
        (All-middle (λ config. IsSatisfied (create around (builtins around) config) context) front
          (enabled_config c base) back
          ((evaluate_all_iff (builtins around) (front ++ (enabled_config c base ∷ back)) context).0
            h))
