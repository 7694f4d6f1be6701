-- ===== src/Authentication/RateLimiter/Window.antt =====
-- The sliding window over time: the deques stay ordered, and what a check and the count of the
-- remaining attempts have to do with one another.
use optorch.Base.{
  ℕ, ◌*◌, ◌<◌, ◌≤◌, ◌≡◌, Bool, true, false, String, List, [], ◌∷◌, Option, none, some, Outcome, ok,
  raise, ltb, leb, length, keep, arith, if_both, Option-cases, inl, inr,
}
use optorch.Base.Dict
use optorch.Base.Dict.{Dict}
use optorch.Authentication.RateLimiter.{
  second, Limiter, RateLimitExceeded, deque_of, attempts_of, drop_expired, lift_lockout,
  check_window, check_lockout, check_rate_limit, in_window, count_remaining, get_remaining_attempts,
  record_attempt, record_success, record_failure, reset, Event, check, attempt, admin_reset, step,
  run,
}
use optorch.Authentication.RateLimiter.Deques.{
  Ascending, drop_expired-eq-keep, IsOrdered, IsOrdered-snoc, IsOrdered-drop_expired,
  IsOrdered-later, deque_of-insert, deque_of-erase,
}

-- Every deque of the limiter is ordered, and no attempt in it is later than `now`.
pub record IsChronological (now : ℕ) (s : Limiter) : Type 0 where
  pub deques : (j : String) → IsOrdered now (attempts_of j s)

abbrev pub time : Event → ℕ
time (check now identifier) = now
time (attempt now identifier success) = now
time (admin_reset now identifier) = now

module _ {now later : ℕ} (le : now ≤ later) where
  IsChronological-later : (s : Limiter) → IsChronological now s → IsChronological later s
  IsChronological-later s h = record { deques = λ j. IsOrdered-later le _ (h.deques j) }

  check_window-IsChronological :
      (identifier : String) (s : Limiter)
      → IsChronological now s
      → IsChronological later (check_window later identifier s).1
  unfolding check_window
  check_window-IsChronological identifier s h =
      let kept : (j : String)
          → IsOrdered later (
              deque_of j (
                Dict.insert identifier
                  (drop_expired (s.config.window_seconds * second) later (attempts_of identifier s))
                  s.attempts)) =
        λ j.
          deque_of-insert (IsOrdered later) j identifier s.attempts _
            (IsOrdered-drop_expired le _ _ (h.deques identifier))
            (IsOrdered-later le _ (h.deques j)) in
      if_both (λ (r : Outcome RateLimitExceeded Unit × Limiter). IsChronological later r.1)
        (leb s.config.max_attempts _) _ _ (λ _. record { deques = kept })
        (λ _. record { deques = kept })

  lift_lockout-IsChronological :
      (identifier : String) (s : Limiter)
      → IsChronological now s
      → IsChronological now (lift_lockout identifier s)
  unfolding lift_lockout
  lift_lockout-IsChronological identifier s h = record {
    deques = λ j. deque_of-insert (IsOrdered now) j identifier s.attempts [] (tt, tt) (h.deques j);
  }

  check_lockout-IsChronological :
      (identifier : String) (lockout : Option ℕ) (s : Limiter)
      → IsChronological now s
      → IsChronological later (check_lockout later identifier lockout s).1
  unfolding check_lockout
  check_lockout-IsChronological identifier none s h = check_window-IsChronological identifier s h
  check_lockout-IsChronological identifier (some lockout_until) s h =
      if_both (λ (r : Outcome RateLimitExceeded Unit × Limiter). IsChronological later r.1)
        (ltb later lockout_until) _ _ (λ _. IsChronological-later s h)
        (λ _.
          check_window-IsChronological identifier (lift_lockout identifier s)
            (lift_lockout-IsChronological identifier s h))

  record_attempt-IsChronological :
      (identifier : String) (success : Bool) (s : Limiter)
      → IsChronological now s
      → IsChronological later (record_attempt later identifier success s)
  unfolding record_attempt record_success record_failure
  record_attempt-IsChronological identifier false s h = record {
    deques = λ j.
        deque_of-insert (IsOrdered later) j identifier s.attempts _
          (IsOrdered-snoc le _ (h.deques identifier)) (IsOrdered-later le _ (h.deques j));
  }
  record_attempt-IsChronological identifier true s h = record {
    deques = λ j.
        if_both (λ d. IsOrdered later (deque_of j d)) (Dict.has identifier s.attempts) _ _
          (λ _.
            deque_of-insert (IsOrdered later) j identifier s.attempts [] (tt, tt)
              (IsOrdered-later le _ (h.deques j)))
          (λ _. IsOrdered-later le _ (h.deques j));
  }

step-IsChronological :
    {now : ℕ} (e : Event) (s : Limiter)
    → now ≤ time e
    → IsChronological now s
    → IsChronological (time e) (step e s)
unfolding step check_rate_limit reset
step-IsChronological (check now identifier) s le h =
    check_lockout-IsChronological le identifier (Dict.get identifier s.lockouts) s h
step-IsChronological (attempt now identifier success) s le h =
    record_attempt-IsChronological le identifier success s h
step-IsChronological (admin_reset now identifier) s le h = record {
  deques = λ j.
      deque_of-erase (IsOrdered now) j identifier s.attempts (tt, tt)
        (IsOrdered-later le _ (h.deques j));
}

-- The events come in the order of time, the first not before `now`.
abbrev pub InOrder : ℕ → List Event → Type 0
InOrder now [] = Unit
InOrder now (e ∷ es) = (now ≤ time e) × InOrder (time e) es

abbrev last_time : ℕ → List Event → ℕ
last_time now [] = now
last_time now (e ∷ es) = last_time (time e) es

-- Whatever is checked, recorded and reset in the order of time, every deque is ascending and holds
-- no time later than the last event: the front of a deque is its oldest attempt.
pub run-IsChronological :
    (es : List Event) (now : ℕ) (s : Limiter)
    → InOrder now es
    → IsChronological now s
    → IsChronological (last_time now es) (run es s)
unfolding run
run-IsChronological [] now s order h = h
run-IsChronological (e ∷ es) now s order h =
    run-IsChronological es (time e) (step e s) order.1 (step-IsChronological e s order.0 h)

abbrev pub passes : {A : Type 0} → Outcome RateLimitExceeded A → Bool
passes (ok a) = true
passes (raise e) = false

module _ (now : ℕ) (j : String) (s : Limiter) where
  check_window-passes :
      Ascending (attempts_of j s)
      → passes (check_window now j s).0 ≡ ltb 0 (count_remaining now j s)
  unfolding check_window count_remaining
  check_window-passes h =
      rw (drop_expired-eq-keep (s.config.window_seconds * second) now (attempts_of j s) h)
        (ground arith)

  -- With no lockout stored, or with one that has not ended, `check_rate_limit` lets an attempt pass
  -- exactly when `get_remaining_attempts` is positive.
  pub check-passes-iff-remaining :
      IsChronological now s
      → ((lockout_until : ℕ) → Dict.get j s.lockouts ≡ some lockout_until → now < lockout_until)
      → passes (check_rate_limit now j s).0 ≡ ltb 0 (get_remaining_attempts now j s)
  unfolding check_rate_limit check_lockout get_remaining_attempts
  check-passes-iff-remaining h current = elim (Option-cases (Dict.get j s.lockouts)) [
    | inl missing ↦ ground (arith, check_window-passes (h.deques j).0)
    | inr (lockout_until, stored) ↦ ground (arith, current lockout_until stored)
  ]

  -- After a lockout has ended the two disagree: a check forgets the old attempts and passes, while
  -- `get_remaining_attempts` still counts those in the window, and says 0 if there are enough.
  pub ended_lockout_disagrees :
      (lockout_until : ℕ)
      → Dict.get j s.lockouts ≡ some lockout_until
      → lockout_until ≤ now
      → 0 < s.config.max_attempts
      → s.config.max_attempts
        ≤ length (keep (in_window (s.config.window_seconds * second) now) (attempts_of j s))
      → (passes (check_rate_limit now j s).0 ≡ true) × (get_remaining_attempts now j s ≡ 0)
  unfolding check_rate_limit check_lockout get_remaining_attempts lift_lockout check_window
      drop_expired count_remaining
  ended_lockout_disagrees lockout_until stored ended positive many =
      ground (arith, Dict.get-insert_self {V = List ℕ} j [] s.attempts)
