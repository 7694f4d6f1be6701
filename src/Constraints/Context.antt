-- ===== src/Constraints/Context.antt =====
-- constraints/context.py: ContextConstraint.evaluate. `lt` compares floating-point numbers; `attribute`
-- is `getattr(subject, attr, None)`.
use optorch.Base.{
  ◌≡◌, refl, ap, ◌∙◌, ◌↔◌, true, false, Bool, not, ◌&&◌, nat_eq, Option, none, some, String, List,
  [], ◌∷◌, elem, any, all, All, arith, if◌then◌else◌, ◌==◌, eq_iff, str_eq_self,
}
use optorch.Base.Dict
use optorch.Base.Dict.{Dict}
use optorch.Constraints.Location.{entries}
use optorch.Constraints.Models.{
  Value, nothing, text, number, flag, texts, SubjectContext, ConstraintContext,
}

pub record ContextConstraintConfig (Float : Type 0) : Type 0 where
  pub max_cost : Option Float
  pub min_budget_remaining : Option Float
  pub required_roles : Option (List String)
  pub required_all_roles : Option (List String)
  pub required_attributes : Option (Dict String)
  pub allowed_actions : Option (List String)

-- Python's truth of a value
unfoldable pub truthy : Value → Bool
truthy nothing = false
truthy (text s) = not (s == "")
truthy (number n) = not (nat_eq n 0)
truthy (flag b) = b
truthy (texts []) = false
truthy (texts (s ∷ ss)) = true

unfoldable pub equals_text : Value → String → Bool
equals_text (text s) t = s == t
equals_text nothing t = false
equals_text (number n) t = false
equals_text (flag b) t = false
equals_text (texts ss) t = false

equals_text_iff : (v : Value) (t : String) → equals_text v t ≡ true ↔ v ≡ text t
unfolding equals_text
equals_text_iff v t = (to_equal v, (λ e. ap (λ w. equals_text w t) e ∙ str_eq_self t))
  where
    to_equal : (v : Value) → equals_text v t ≡ true → v ≡ text t
    to_equal (text s) h = ap text ((eq_iff s t).0 h)
    to_equal nothing h = ground (arith, h)
    to_equal (number n) h = ground (arith, h)
    to_equal (flag b) h = ground (arith, h)
    to_equal (texts ss) h = ground (arith, h)

unfoldable pub some_or_nothing : Option Value → Value
some_or_nothing none = nothing
some_or_nothing (some v) = v

unfoldable pub roles_any : List String → List String → Bool
roles_any [] roles = true
roles_any (r ∷ required) roles = any (λ role. elem role roles) (r ∷ required)

unfoldable pub action_allowed : List String → Option String → Bool
action_allowed [] action = true
action_allowed (a ∷ actions) none = false
action_allowed (a ∷ actions) (some action) = elem action (a ∷ actions)

module _ {Float : Type 0} (lt : Float → Float → Bool)
    (attribute : SubjectContext → String → Value) where
  unfoldable pub check_cost : Option Float → Float → Bool
  check_cost none estimated_cost = true
  check_cost (some max_cost) estimated_cost = if lt max_cost estimated_cost then false else true

  unfoldable pub check_budget : Option Float → Float → Bool
  check_budget none remaining = true
  check_budget (some min_budget) remaining = if lt remaining min_budget then false else true

  -- `getattr(subject, attr, None) or subject.attributes.get(attr)`
  unfoldable pub subject_value : SubjectContext → String → Value
  subject_value subject attr =
      if truthy (attribute subject attr)
      then attribute subject attr
      else some_or_nothing (Dict.get attr subject.attributes)

  -- the loop of `_check_attributes`
  unfoldable pub check_attributes : Dict String → SubjectContext → Bool
  check_attributes [] subject = true
  check_attributes ((attr, expected_value) ∷ required) subject =
      let rest = check_attributes required subject in
      if not (equals_text (subject_value subject attr) expected_value) then false else rest

  unfoldable pub evaluate : ContextConstraintConfig Float → ConstraintContext Float → Bool
  evaluate config context =
      if not (check_cost config.max_cost context.environment.estimated_cost)
      then false
      else if not (check_budget config.min_budget_remaining context.environment.budget_remaining)
      then false
      else if not (roles_any (entries config.required_roles) context.subject.roles)
      then false
      else if not
          (all (λ role. elem role context.subject.roles) (entries config.required_all_roles))
      then false
      else if not (check_attributes (entries config.required_attributes) context.subject)
      then false
      else if not (action_allowed (entries config.allowed_actions) context.action)
      then false
      else true

  abbrev pub IsWithin : Option Float → Option Float → Float → Float → Type 0
  IsWithin none none cost budget = Unit
  IsWithin (some max_cost) none cost budget = lt max_cost cost ≡ false
  IsWithin none (some min_budget) cost budget = lt budget min_budget ≡ false
  IsWithin (some max_cost) (some min_budget) cost budget =
      (lt max_cost cost ≡ false) × (lt budget min_budget ≡ false)

  check_cost_iff :
      (max_cost min_budget : Option Float) (cost budget : Float)
      → (check_cost max_cost cost && check_budget min_budget budget) ≡ true
        ↔ IsWithin max_cost min_budget cost budget
  unfolding check_cost check_budget
  check_cost_iff none none cost budget = ((λ _. tt), (λ _. refl))
  check_cost_iff (some m) none cost budget = ((λ h. ground (arith, h)), (λ h. ground (arith, h)))
  check_cost_iff none (some m) cost budget = ((λ h. ground (arith, h)), (λ h. ground (arith, h)))
  check_cost_iff (some m) (some n) cost budget =
      ((λ h. (ground (arith, h), ground (arith, h))), (λ h. ground (arith, h.0, h.1)))

  all_iff :
      (roles required : List String)
      → all (λ role. elem role roles) required ≡ true
        ↔ All (λ role. elem role roles ≡ true) required
  unfolding all
  all_iff roles [] = ((λ _. tt), (λ _. refl))
  all_iff roles (r ∷ required) = (
    (λ h. (ground (arith, h), (all_iff roles required).0 (ground (arith, h)))),
    (λ h. ground (arith, h.0, (all_iff roles required).1 h.1)),
  )

  check_attributes_iff :
      (required : Dict String) (subject : SubjectContext)
      → check_attributes required subject ≡ true
        ↔ All (λ entry. subject_value subject entry.0 ≡ text entry.1) required
  unfolding check_attributes
  check_attributes_iff [] subject = ((λ _. tt), (λ _. refl))
  check_attributes_iff ((attr, expected) ∷ required) subject =
      let rest = check_attributes_iff required subject in
      let here = equals_text_iff (subject_value subject attr) expected in
      (
        (λ h. (here.0 (ground (arith, h)), rest.0 (ground (arith, h)))),
        (λ h. ground (arith, here.1 h.0, rest.1 h.1)),
      )

  -- The context constraint is met exactly if the estimated cost is not above `max_cost` and the budget
  -- not below `min_budget_remaining` where these are given, the subject has one of `required_roles`
  -- unless none are listed, has every role of `required_all_roles` and every required attribute with its
  -- value, and the action is one of `allowed_actions` unless none are listed.
  pub evaluate_context_iff :
      (config : ContextConstraintConfig Float) (context : ConstraintContext Float)
      → evaluate config context ≡ true
        ↔ IsWithin config.max_cost config.min_budget_remaining context.environment.estimated_cost
            context.environment.budget_remaining
          × (roles_any (entries config.required_roles) context.subject.roles ≡ true)
          × All (λ role. elem role context.subject.roles ≡ true) (entries config.required_all_roles)
          × All
              (λ entry. subject_value context.subject entry.0 ≡ text entry.1)
              (entries config.required_attributes)
          × (action_allowed (entries config.allowed_actions) context.action ≡ true)
  unfolding evaluate
  evaluate_context_iff config context =
      let within =
        check_cost_iff config.max_cost config.min_budget_remaining
          context.environment.estimated_cost context.environment.budget_remaining in
      let roles = all_iff context.subject.roles (entries config.required_all_roles) in
      let values = check_attributes_iff (entries config.required_attributes) context.subject in
      (
        (λ h. (
          within.0 (ground (arith, h)),
          ground (arith, h),
          roles.0 (ground (arith, h)),
          values.0 (ground (arith, h)),
          ground (arith, h),
        )),
        (λ h. ground (arith, within.1 h.0, h.1, roles.1 h.2, values.1 h.3, h.4)),
      )
