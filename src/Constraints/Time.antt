-- ===== src/Constraints/Time.antt =====
-- constraints/time.py: TimeConstraint.evaluate.
use optorch.Base.{
  ◌≡◌, refl, ◌↔◌, true, false, Bool, not, ◌&&◌, ℕ, ◌≤◌, ◌<◌, ltb, leb, Option, none, some, arith,
  if◌then◌else◌,
}
use optorch.Constraints.Models.{DateTime, ConstraintContext}

pub record TimeConstraintConfig : Type 0 where
  pub start_hour : ℕ
  pub end_hour : ℕ
  pub weekday_only : Bool
  pub start_time : Option ℕ
  pub end_time : Option ℕ
  pub after_date : Option DateTime
  pub before_date : Option DateTime

-- `context.environment.current_time or datetime.now(UTC)`
unfoldable pub time_or : Option DateTime → DateTime → DateTime
time_or none clock = clock
time_or (some given) clock = given

unfoldable pub outside_times : Option ℕ → Option ℕ → ℕ → Bool
outside_times none end_time current_time = false
outside_times (some start_time) none current_time = false
outside_times (some start_time) (some end_time) current_time =
    not (leb start_time current_time && leb current_time end_time)

unfoldable pub too_early : Option DateTime → DateTime → Bool
too_early none now = false
too_early (some after_date) now = ltb now.instant after_date.instant

unfoldable pub too_late : Option DateTime → DateTime → Bool
too_late none now = false
too_late (some before_date) now = ltb before_date.instant now.instant

unfoldable pub evaluate_at : TimeConstraintConfig → DateTime → Bool
evaluate_at config now =
    if not (leb config.start_hour now.hour && ltb now.hour config.end_hour)
    then false
    else if config.weekday_only && leb 5 now.weekday
    then false
    else if outside_times config.start_time config.end_time now.time
    then false
    else if too_early config.after_date now
    then false
    else if too_late config.before_date now
    then false
    else true

-- `clock` is what `datetime.now(UTC)` answers
unfoldable pub evaluate :
    {Float : Type 0} → TimeConstraintConfig → DateTime → ConstraintContext Float → Bool
evaluate config clock context = evaluate_at config (time_or context.environment.current_time clock)

-- The conditions, one by one.
abbrev pub Within : Option ℕ → Option ℕ → ℕ → Type 0
Within none end_time t = Unit
Within (some start_time) none t = Unit
Within (some start_time) (some end_time) t = (start_time ≤ t) × (t ≤ end_time)

abbrev pub NotBefore : Option DateTime → DateTime → Type 0
NotBefore none now = Unit
NotBefore (some after_date) now = after_date.instant ≤ now.instant

abbrev pub NotAfter : Option DateTime → DateTime → Type 0
NotAfter none now = Unit
NotAfter (some before_date) now = now.instant ≤ before_date.instant

unfoldable pub IsAllowedAt : TimeConstraintConfig → DateTime → Type 0
IsAllowedAt config now =
    (config.start_hour ≤ now.hour)
    × (now.hour < config.end_hour)
    × (config.weekday_only ≡ true → now.weekday < 5)
    × Within config.start_time config.end_time now.time
    × NotBefore config.after_date now
    × NotAfter config.before_date now

outside_times_iff : (s e : Option ℕ) (t : ℕ) → outside_times s e t ≡ false ↔ Within s e t
unfolding outside_times
outside_times_iff none e t = ((λ _. tt), (λ _. refl))
outside_times_iff (some s) none t = ((λ _. tt), (λ _. refl))
outside_times_iff (some s) (some e) t =
    ((λ h. (ground (arith, h), ground (arith, h))), (λ h. ground (arith, h.0, h.1)))

too_early_iff : (d : Option DateTime) (now : DateTime) → too_early d now ≡ false ↔ NotBefore d now
unfolding too_early
too_early_iff none now = ((λ _. tt), (λ _. refl))
too_early_iff (some d) now = ((λ h. ground (arith, h)), (λ h. ground (arith, h)))

too_late_iff : (d : Option DateTime) (now : DateTime) → too_late d now ≡ false ↔ NotAfter d now
unfolding too_late
too_late_iff none now = ((λ _. tt), (λ _. refl))
too_late_iff (some d) now = ((λ h. ground (arith, h)), (λ h. ground (arith, h)))

-- The time constraint is met exactly if the hour is from `start_hour` to before `end_hour`, the day is a
-- weekday where that is asked for, the time of day lies in the closed range if both ends are given, and
-- the moment is not before `after_date` and not after `before_date` where these are given.
pub evaluate_at_iff :
    (config : TimeConstraintConfig) (now : DateTime)
    → evaluate_at config now ≡ true ↔ IsAllowedAt config now
unfolding evaluate_at IsAllowedAt
evaluate_at_iff config now =
    let times = outside_times_iff config.start_time config.end_time now.time in
    let early = too_early_iff config.after_date now in
    let late = too_late_iff config.before_date now in
    (
      (λ h. (
        ground (arith, h),
        ground (arith, h),
        (λ w. ground (arith, h, w)),
        times.0 (ground (arith, h)),
        early.0 (ground (arith, h)),
        late.0 (ground (arith, h)),
      )),
      (λ h. ground (arith, h.0, h.1, h.2, times.1 h.3, early.1 h.4, late.1 h.5)),
    )

-- A window whose end hour is not after its start hour, such as one over midnight, is never met.
pub evaluate-overnight :
    (config : TimeConstraintConfig) (now : DateTime)
    → config.end_hour ≤ config.start_hour
    → evaluate_at config now ≡ false
unfolding evaluate_at
evaluate-overnight config now h = ground (arith, h)
