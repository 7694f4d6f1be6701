-- ===== src/Authentication/RateLimiter/Lockout.antt =====
-- A lockout holds until it ends, and concerns nobody else.
use optorch.Base.{
  ℕ, ◌+◌, ◌-◌, ◌*◌, ◌<◌, ◌≡◌, ◌≢◌, refl, Bool, true, false, String, List, [], ◌∷◌, Option, none,
  some, Outcome, raise, ltb, arith, eq_iff, if_both, Bool-cases, inl, inr, ◌==◌, All, ◌∙◌, sym,
  subst,
}
use Prim.Native.Nat.{◌/◌}
use optorch.Base.Dict
use optorch.Base.Dict.{get-insert, get-erase}
use optorch.Authentication.RateLimiter.{
  check_lockout, second, drop_expired, lift_lockout, record_success, record_failure,
  RateLimitExceeded, Limiter, attempts_of, check_window, check_rate_limit, record_attempt, reset,
  Event, check, attempt, admin_reset, step, run,
}

-- The identifier that an event is about, and its time.
abbrev pub subject : Event → String
subject (check now identifier) = identifier
subject (attempt now identifier success) = identifier
subject (admin_reset now identifier) = identifier

-- What the limiter knows of `j` is the same in both states.
pub record SameFor (j : String) (s s' : Limiter) : Type 0 where
  pub lockout : Dict.get j s'.lockouts ≡ Dict.get j s.lockouts
  pub attempts : Dict.get j s'.attempts ≡ Dict.get j s.attempts

module _ (j : String) where
  check_window-SameFor :
      (now : ℕ) (identifier : String) (s : Limiter)
      → identifier ≢ j
      → SameFor j s (check_window now identifier s).1
  unfolding check_window
  check_window-SameFor now identifier s other =
      let same = λ (ts : List ℕ). Dict.get-insert_ne identifier j ts s.attempts other in
      let fresh = λ (n : ℕ). Dict.get-insert_ne identifier j n s.lockouts other in
      record {
        lockout = ground (arith, fresh (now + s.config.lockout_seconds * second));
        attempts = ground (
          arith,
          same (drop_expired (s.config.window_seconds * second) now (attempts_of identifier s)),
        );
      }

  lift_lockout-SameFor :
      (identifier : String) (s : Limiter) → identifier ≢ j → SameFor j s (lift_lockout identifier s)
  unfolding lift_lockout
  lift_lockout-SameFor identifier s other = record {
    lockout = Dict.get-erase_ne identifier j s.lockouts other;
    attempts = Dict.get-insert_ne identifier j [] s.attempts other;
  }

  SameFor-trans : {s t u : Limiter} → SameFor j s t → SameFor j t u → SameFor j s u
  SameFor-trans p q = record { lockout = q.lockout ∙ p.lockout; attempts = q.attempts ∙ p.attempts }

  check_lockout-SameFor :
      (now : ℕ) (identifier : String) (lockout : Option ℕ) (s : Limiter)
      → identifier ≢ j
      → SameFor j s (check_lockout now identifier lockout s).1
  unfolding check_lockout
  check_lockout-SameFor now identifier none s other = check_window-SameFor now identifier s other
  check_lockout-SameFor now identifier (some lockout_until) s other =
      if_both (λ (r : Outcome RateLimitExceeded Unit × Limiter). SameFor j s r.1)
        (ltb now lockout_until) _ _ (λ _. record { lockout = refl; attempts = refl })
        (λ _.
          SameFor-trans (lift_lockout-SameFor identifier s other)
            (check_window-SameFor now identifier (lift_lockout identifier s) other))

  record_attempt-SameFor :
      (now : ℕ) (identifier : String) (success : Bool) (s : Limiter)
      → identifier ≢ j
      → SameFor j s (record_attempt now identifier success s)
  unfolding record_attempt record_success record_failure
  record_attempt-SameFor now identifier false s other = record {
    lockout = refl;
    attempts = Dict.get-insert_ne identifier j _ s.attempts other;
  }
  record_attempt-SameFor now identifier true s other = record {
    lockout = Dict.get-erase_ne identifier j s.lockouts other;
    attempts = ground (arith, Dict.get-insert_ne identifier j [] s.attempts other);
  }

  -- An event about one identifier changes nothing that the limiter knows of another.
  pub step-SameFor : (e : Event) (s : Limiter) → subject e ≢ j → SameFor j s (step e s)
  unfolding step check_rate_limit reset
  step-SameFor (check now identifier) s other =
      check_lockout-SameFor now identifier (Dict.get identifier s.lockouts) s other
  step-SameFor (attempt now identifier success) s other =
      record_attempt-SameFor now identifier success s other
  step-SameFor (admin_reset now identifier) s other = record {
    lockout = Dict.get-erase_ne identifier j s.lockouts other;
    attempts = Dict.get-erase_ne identifier j s.attempts other;
  }

  -- However many events about other identifiers there are, they change nothing that the limiter
  -- knows of `j`: no client can use up another's attempts or lift another's lockout.
  pub run-SameFor :
      (es : List Event) (s : Limiter) → All (λ e. subject e ≢ j) es → SameFor j s (run es s)
  unfolding run
  run-SameFor [] s others = record { lockout = refl; attempts = refl }
  run-SameFor (e ∷ es) s others =
      SameFor-trans (step-SameFor e s others.0) (run-SameFor es (step e s) others.1)

-- An event that cannot end a lockout that lasts until `lockout_until`: it is earlier, and if it is
-- about the identifier, it is a check or a failed attempt.
abbrev pub Harmless : String → ℕ → Event → Type 0
Harmless j lockout_until (check now identifier) = now < lockout_until
Harmless j lockout_until (attempt now identifier success) =
    (now < lockout_until) × (success ≡ true → identifier ≢ j)
Harmless j lockout_until (admin_reset now identifier) = (now < lockout_until) × (identifier ≢ j)

-- What a check answers during a lockout.
abbrev pub rejected : ℕ → ℕ → String → Outcome RateLimitExceeded Unit
rejected lockout_until now j =
    raise (record { retry_after_seconds = (lockout_until - now) / second; identifier = j })

pub check_locked :
    (j : String) (lockout_until now : ℕ) (s : Limiter)
    → now < lockout_until
    → Dict.get j s.lockouts ≡ some lockout_until
    → check_rate_limit now j s ≡ (rejected lockout_until now j, s)
unfolding check_rate_limit check_lockout
check_locked j lockout_until now s early locked = ground arith

module _ (j : String) (lockout_until : ℕ) where
  step-lockout_self :
      (e : Event) (s : Limiter)
      → subject e ≡ j
      → Harmless j lockout_until e
      → Dict.get j s.lockouts ≡ some lockout_until
      → Dict.get j (step e s).lockouts ≡ some lockout_until
  unfolding step record_attempt record_failure
  step-lockout_self (check now identifier) s same early locked =
      subst (λ i. Dict.get j (check_rate_limit now i s).1.lockouts ≡ some lockout_until) (sym same)
        (rw (check_locked j lockout_until now s early locked) locked)
  step-lockout_self (attempt now identifier false) s same early locked = locked
  step-lockout_self (attempt now identifier true) s same early locked = absurd (early.1 refl same)
  step-lockout_self (admin_reset now identifier) s same early locked = absurd (early.1 same)

  step-lockout :
      (e : Event) (s : Limiter)
      → Harmless j lockout_until e
      → Dict.get j s.lockouts ≡ some lockout_until
      → Dict.get j (step e s).lockouts ≡ some lockout_until
  step-lockout e s early locked = elim (Bool-cases (subject e == j)) [
    | inl same ↦ step-lockout_self e s ((eq_iff (subject e) j).0 same) early locked
    | inr other ↦ (step-SameFor j e s (ground (arith, eq_iff (subject e) j))).lockout ∙ locked
  ]

  run-lockout :
      (es : List Event) (s : Limiter)
      → All (Harmless j lockout_until) es
      → Dict.get j s.lockouts ≡ some lockout_until
      → Dict.get j (run es s).lockouts ≡ some lockout_until
  unfolding run
  run-lockout [] s early locked = locked
  run-lockout (e ∷ es) s early locked =
      run-lockout es (step e s) early.1 (step-lockout e s early.0 locked)

  -- Once `j` is locked out, every check of `j` before the end of the lockout is rejected, with the
  -- whole seconds that are left, whatever happened since: checks and failed attempts of `j`, and
  -- any events about other identifiers. Only a success or a reset of `j` itself is left out.
  pub run-check_locked :
      (es : List Event) (s : Limiter) (now : ℕ)
      → All (Harmless j lockout_until) es
      → now < lockout_until
      → Dict.get j s.lockouts ≡ some lockout_until
      → check_rate_limit now j (run es s) ≡ (rejected lockout_until now j, run es s)
  run-check_locked es s now early before locked =
      check_locked j lockout_until now (run es s) before (run-lockout es s early locked)
