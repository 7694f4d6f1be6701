-- ===== src/Constraints/Resource.antt =====
-- constraints/resource.py: ResourceConstraint.evaluate.
use optorch.Base.{
  ◌≡◌, refl, ap, ◌↔◌, true, false, Bool, not, ◌&&◌, ℕ, ◌≤◌, ltb, Option, none, some, String, List,
  [], ◌∷◌, elem, All, arith, if◌then◌else◌, ◌==◌, eq_iff,
}
use optorch.Constraints.Models.{SubjectContext, ResourceContext, ConstraintContext}

pub record ResourceConstraintConfig : Type 0 where
  pub require_ownership : Bool
  pub require_same_org : Bool
  pub min_clearance_level : Option ℕ
  pub required_tags : Option (List String)

-- Python's `==` on optional texts: None equals None
unfoldable pub same : Option String → Option String → Bool
same none none = true
same none (some t) = false
same (some s) none = false
same (some s) (some t) = s == t

unfoldable pub check_ownership : SubjectContext → ResourceContext → Bool
check_ownership subject resource =
    if not (same subject.user_id resource.owner_id) then false else true

unfoldable pub check_same_org : SubjectContext → ResourceContext → Bool
check_same_org subject resource =
    if not (same subject.org_id resource.resource_org) then false else true

abbrev pub max : ℕ → ℕ → ℕ
max a b = if ltb a b then b else a

-- `min_clearance_level or 0`
abbrev pub or_zero : Option ℕ → ℕ
or_zero none = 0
or_zero (some level) = level

unfoldable pub check_clearance : Option ℕ → SubjectContext → ResourceContext → Bool
check_clearance min_clearance_level subject resource =
    let required = max (or_zero min_clearance_level) resource.sensitivity_level in
    if ltb subject.clearance_level required then false else true

-- the loop of `_check_tags`
unfoldable pub has_tags : List String → List String → Bool
has_tags [] resource_tags = true
has_tags (tag ∷ required) resource_tags =
    let rest = has_tags required resource_tags in
    if not (elem tag resource_tags) then false else rest

abbrev pub tags_of : Option (List String) → List String
tags_of none = []
tags_of (some required) = required

-- no list of tags, or an empty one, asks for nothing
unfoldable pub check_tags : Option (List String) → ResourceContext → Bool
check_tags none resource = true
check_tags (some required) resource = has_tags required resource.tags

abbrev pub is_given : Option ℕ → Bool
is_given none = false
is_given (some level) = true

unfoldable pub evaluate :
    {Float : Type 0} → ResourceConstraintConfig → ConstraintContext Float → Bool
evaluate config context =
    if config.require_ownership && not (check_ownership context.subject context.resource)
    then false
    else if config.require_same_org && not (check_same_org context.subject context.resource)
    then false
    else if is_given config.min_clearance_level
        && not (check_clearance config.min_clearance_level context.subject context.resource)
    then false
    else if not (check_tags config.required_tags context.resource)
    then false
    else true

guarded :
    (asked met : Bool)
    → (asked ≡ true → met ≡ true)
    → (asked && not (if not met then false else true)) ≡ false
guarded true met h = ground (arith, h refl)
guarded false met h = refl

same_iff : (s t : Option String) → same s t ≡ true ↔ s ≡ t
unfolding same
same_iff none none = ((λ _. refl), (λ _. refl))
same_iff none (some t) = ((λ h. ground (arith, h)), (λ h. ground (arith, h)))
same_iff (some s) none = ((λ h. ground (arith, h)), (λ h. ground (arith, h)))
same_iff (some s) (some t) =
    ((λ h. ap some ((eq_iff s t).0 h)), (λ h. ground (arith, h, eq_iff s t)))

has_tags_iff :
    (required tags : List String)
    → has_tags required tags ≡ true ↔ All (λ tag. elem tag tags ≡ true) required
unfolding has_tags
has_tags_iff [] tags = ((λ _. tt), (λ _. refl))
has_tags_iff (tag ∷ required) tags = (
  (λ h. (ground (arith, h), (has_tags_iff required tags).0 (ground (arith, h)))),
  (λ h. ground (arith, h.0, (has_tags_iff required tags).1 h.1)),
)

check_tags_iff :
    (required : Option (List String)) (resource : ResourceContext)
    → check_tags required resource ≡ true
      ↔ All (λ tag. elem tag resource.tags ≡ true) (tags_of required)
unfolding check_tags
check_tags_iff none resource = ((λ _. tt), (λ _. refl))
check_tags_iff (some required) resource = has_tags_iff required resource.tags

abbrev pub IsCleared : Option ℕ → SubjectContext → ResourceContext → Type 0
IsCleared none subject resource = Unit
IsCleared (some level) subject resource =
    (level ≤ subject.clearance_level) × (resource.sensitivity_level ≤ subject.clearance_level)

check_clearance_iff :
    (level : Option ℕ) (subject : SubjectContext) (resource : ResourceContext)
    → (is_given level && not (check_clearance level subject resource)) ≡ false
      ↔ IsCleared level subject resource
unfolding check_clearance
check_clearance_iff none subject resource = ((λ _. tt), (λ _. refl))
check_clearance_iff (some level) subject resource =
    ((λ h. (ground (arith, h), ground (arith, h))), (λ h. ground (arith, h.0, h.1)))

-- The resource constraint is met exactly if, where ownership is required, the subject's id is the
-- owner's (both may be None); where the same organisation is required, the organisations are equal (or
-- both None); where a clearance level is given, the subject's clearance reaches it and the sensitivity
-- of the resource; and the resource has every required tag.
pub evaluate_resource_iff :
    {Float : Type 0} (config : ResourceConstraintConfig) (context : ConstraintContext Float)
    → evaluate config context ≡ true
      ↔ (config.require_ownership ≡ true → context.subject.user_id ≡ context.resource.owner_id)
        × (config.require_same_org ≡ true → context.subject.org_id ≡ context.resource.resource_org)
        × IsCleared config.min_clearance_level context.subject context.resource
        × All (λ tag. elem tag context.resource.tags ≡ true) (tags_of config.required_tags)
unfolding evaluate check_ownership check_same_org
evaluate_resource_iff config context =
    let owner = same_iff context.subject.user_id context.resource.owner_id in
    let org = same_iff context.subject.org_id context.resource.resource_org in
    let level = check_clearance_iff config.min_clearance_level context.subject context.resource in
    let tags = check_tags_iff config.required_tags context.resource in
    (
      (λ h. (
        (λ r. owner.0 (ground (arith, h, r))),
        (λ r. org.0 (ground (arith, h, r))),
        level.0 (ground (arith, h)),
        tags.0 (ground (arith, h)),
      )),
      (λ h. ground (
        arith,
        guarded config.require_ownership _ (λ r. owner.1 (h.0 r)),
        guarded config.require_same_org _ (λ r. org.1 (h.1 r)),
        level.1 h.2,
        tags.1 h.3,
      )),
    )
