-- ===== src/Authentication/RateLimiter/Failures.antt =====
-- What a series of failed attempts leads to.
use optorch.Base.{
  ℕ, ◌+◌, ◌*◌, ◌≤◌, ◌≡◌, refl, false, String, List, [], ◌∷◌, ◌++◌, map, none, some, ltb,
  if◌then◌else◌, length, arith, All, ap, sym, ◌∙◌,
}
use mathlib.Core.List.{append-nil, append_assoc}
use optorch.Base.Dict
use optorch.Authentication.RateLimiter.{
  second, Limiter, attempts_of, drop_expired, check_window, check_lockout, check_rate_limit,
  record_attempt, record_failure, Event, attempt, step, run,
}
use optorch.Authentication.RateLimiter.Window.{passes}

-- Attempts of `j` that fail at the given times.
abbrev pub failures : String → List ℕ → List Event
failures j ts = map (λ t. attempt t j false) ts

module _ (j : String) where
  attempts_of-record_failure :
      (t : ℕ) (s : Limiter) → attempts_of j (record_failure t j s) ≡ attempts_of j s ++ t ∷ []
  unfolding record_failure
  attempts_of-record_failure t s =
      ground (arith, Dict.get-insert_self j (attempts_of j s ++ t ∷ []) s.attempts)

  pub attempts_of-record_attempt :
      (t : ℕ) (s : Limiter) → attempts_of j (record_attempt t j false s) ≡ attempts_of j s ++ t ∷ []
  unfolding record_attempt
  attempts_of-record_attempt t s = attempts_of-record_failure t s

  run-failures :
      (ts : List ℕ) (s : Limiter)
      → (attempts_of j (run (failures j ts) s) ≡ attempts_of j s ++ ts)
        × ((run (failures j ts) s).lockouts ≡ s.lockouts)
        × ((run (failures j ts) s).config ≡ s.config)
  unfolding run step record_attempt record_failure
  run-failures [] s = (sym (append-nil _), refl, refl)
  run-failures (t ∷ ts) s =
      let (deque, lockouts, config) = run-failures ts (step (attempt t j false) s) in
      (
        deque
            ∙ ap (λ l. l ++ ts) (attempts_of-record_failure t s)
            ∙ append_assoc (attempts_of j s) (t ∷ []) ts,
        lockouts,
        config,
      )

  none_dropped :
      (window now : ℕ) (ts : List ℕ)
      → All (λ t. now ≤ t + window) ts
      → drop_expired window now ts ≡ ts
  unfolding drop_expired
  none_dropped window now [] h = refl
  none_dropped window now (t ∷ ts) h = ground (arith, none_dropped window now ts h.1)

  check_window_lem :
      (now : ℕ) (s : Limiter) (ts : List ℕ)
      → drop_expired (s.config.window_seconds * second) now (attempts_of j s) ≡ ts
      → (passes (check_window now j s).0 ≡ ltb (length ts) s.config.max_attempts)
        × (Dict.get j (check_window now j s).1.lockouts ≡ (
            if ltb (length ts) s.config.max_attempts
            then Dict.get j s.lockouts
            else some (now + s.config.lockout_seconds * second)))
  unfolding check_window
  check_window_lem now s ts kept =
      ground (arith, Dict.get-insert_self j (now + s.config.lockout_seconds * second) s.lockouts)

  check_free :
      (now : ℕ) (s : Limiter)
      → Dict.get j s.lockouts ≡ none
      → check_rate_limit now j s ≡ check_window now j s
  unfolding check_rate_limit check_lockout
  check_free now s free = ground arith

  -- From a limiter that knows nothing of `j`, after failed attempts that are all still in the window
  -- a check passes exactly when they are fewer than `max_attempts`. A check that does not pass
  -- stores a lockout of `lockout_seconds` from then on, and one that passes stores none.
  pub check-run-failures :
      (ts : List ℕ) (s : Limiter) (now : ℕ)
      → Dict.get j s.attempts ≡ none
      → Dict.get j s.lockouts ≡ none
      → All (λ t. now ≤ t + s.config.window_seconds * second) ts
      → (passes (check_rate_limit now j (run (failures j ts) s)).0
          ≡ ltb (length ts) s.config.max_attempts)
        × (Dict.get j (check_rate_limit now j (run (failures j ts) s)).1.lockouts ≡ (
            if ltb (length ts) s.config.max_attempts
            then none
            else some (now + s.config.lockout_seconds * second)))
  check-run-failures ts s now fresh free recent =
      let after = run (failures j ts) s in
      let (deque, lockouts, config) = run-failures ts s in
      let unlocked : Dict.get j after.lockouts ≡ none = ap (Dict.get j) lockouts ∙ free in
      let empty : attempts_of j s ≡ [] = ground arith in
      let all : attempts_of j after ≡ ts = deque ∙ ap (λ l. l ++ ts) empty in
      let kept : drop_expired (after.config.window_seconds * second) now (attempts_of j after)
          ≡ ts =
        rw (config, all) (none_dropped (s.config.window_seconds * second) now ts recent) in
      rw (check_free now after unlocked)
        (let (passing, locking) = check_window_lem now after ts kept in ground arith)
