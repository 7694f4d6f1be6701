-- ===== src/Resilience/Breaker/Runs.antt =====
-- What sequences of calls do to the breaker: it trips, it rejects, it recovers.
use optorch.Base.{
  ℕ, ◌+◌, ◌≤◌, ◌<◌, ◌≡◌, refl, true, List, [], ◌∷◌, none, some, Outcome, raise, All, length, arith,
  leb, if◌then◌else◌,
}
use optorch.Resilience.Breaker.{
  closed, opened, half_open, CircuitBreakerConfig, CircuitBreaker, circuit_open, on_success,
  on_failure, admit, settle, proceed, execute, run,
}
use optorch.Resilience.Breaker.Machine.{AlwaysFails, AlwaysSucceeds}

module _ (config : CircuitBreakerConfig) {W E A : Type 0} (func : W → Outcome E A × W) where
  -- An admitted call that raises counts as a failure of the breaker as it was admitted.
  execute_failing :
      (started finished : ℕ) (b b' : CircuitBreaker) (w : W)
      → config.enabled ≡ true
      → AlwaysFails func
      → admit config started b ≡ some b'
      → (execute config func started finished b w).1 ≡ on_failure config finished b'
  unfolding execute proceed settle
  execute_failing started finished b b' w on fails admitted = ground (arith, fails w)

  execute_succeeding :
      (started finished : ℕ) (b b' : CircuitBreaker) (w : W)
      → config.enabled ≡ true
      → AlwaysSucceeds func
      → admit config started b ≡ some b'
      → (execute config func started finished b w).1 ≡ on_success config b'
  unfolding execute proceed settle
  execute_succeeding started finished b b' w on succeeds admitted = ground (arith, succeeds w)

  execute_rejected :
      (started finished : ℕ) (b : CircuitBreaker) (w : W)
      → config.enabled ≡ true
      → admit config started b ≡ none
      → execute config func started finished b w ≡ (raise circuit_open, b, w)
  unfolding execute proceed
  execute_rejected started finished b w on rejected = ground arith

  admit_closed :
      (started : ℕ) (b : CircuitBreaker) → b.state ≡ closed → admit config started b ≡ some b
  unfolding admit
  admit_closed started b shut = ground arith

  admit_early :
      (started : ℕ) (b : CircuitBreaker) (last : ℕ)
      → b.state ≡ opened
      → b.last_failure_time ≡ some last
      → started < last + config.recovery_timeout
      → admit config started b ≡ none
  unfolding admit
  admit_early started b last is_open at early = ground arith

  half_open_success :
      (started finished : ℕ) (b : CircuitBreaker) (w : W)
      → config.enabled ≡ true
      → AlwaysSucceeds func
      → b.state ≡ half_open
      → (execute config func started finished b w).1 ≡ (
          if leb config.success_threshold (b.success_count + 1)
          then record b { state = closed; failure_count = 0; success_count = b.success_count + 1 }
          else record b { success_count = b.success_count + 1 })
  unfolding on_success admit
  half_open_success started finished b w on succeeds half =
      ground (arith, execute_succeeding started finished b b w)

  closed_failure :
      (started finished : ℕ) (b : CircuitBreaker) (w : W)
      → config.enabled ≡ true
      → AlwaysFails func
      → b.state ≡ closed
      → ((execute config func started finished b w).1.failure_count ≡ b.failure_count + 1)
        × ((execute config func started finished b w).1.state
            ≡ (if leb config.failure_threshold (b.failure_count + 1) then opened else closed))
  unfolding on_failure
  closed_failure started finished b w on fails shut =
      ground (arith, execute_failing started finished b b w, admit_closed started b)

  -- With every call failing, a closed circuit opens exactly when the failures counted reach
  -- `failure_threshold`, and stays closed until then.
  pub run-trips :
      (calls : List (ℕ × ℕ)) (b : CircuitBreaker) (w : W)
      → config.enabled ≡ true
      → AlwaysFails func
      → b.state ≡ closed
      → b.failure_count < config.failure_threshold
      → b.failure_count + length calls ≤ config.failure_threshold
      → (run config func calls b w).0.state
        ≡ (if leb config.failure_threshold (b.failure_count + length calls) then opened else closed)
  unfolding run
  run-trips [] b w on fails shut below fits = ground arith
  run-trips ((started, finished) ∷ []) b w on fails shut below fits =
      (closed_failure started finished b w on fails shut).1
  run-trips ((started, finished) ∷ c ∷ calls) b w on fails shut below fits =
      let after = execute config func started finished b w in
      let (counted, state) = closed_failure started finished b w on fails shut in
      ground (arith, run-trips (c ∷ calls) after.1 after.2 on fails)

  -- Until `recovery_timeout` has passed since the last failure, an open circuit changes nothing:
  -- the protected call is not made, and the breaker keeps its state.
  pub run-rejects :
      (calls : List (ℕ × ℕ)) (b : CircuitBreaker) (w : W) (last : ℕ)
      → config.enabled ≡ true
      → b.state ≡ opened
      → b.last_failure_time ≡ some last
      → All (λ c. c.0 < last + config.recovery_timeout) calls
      → run config func calls b w ≡ (b, w)
  unfolding run
  run-rejects [] b w last on is_open at early = refl
  run-rejects ((started, finished) ∷ calls) b w last on is_open at early =
      rw (execute_rejected started finished b w on (admit_early started b last is_open at early.0))
        (run-rejects calls b w last on is_open at early.1)

  -- With every call succeeding, a half-open circuit closes, its failures forgotten, as soon as
  -- `success_threshold` successes are counted, and not before.
  pub run-recovers :
      (calls : List (ℕ × ℕ)) (b : CircuitBreaker) (w : W)
      → config.enabled ≡ true
      → AlwaysSucceeds func
      → b.state ≡ half_open
      → b.success_count < config.success_threshold
      → b.success_count + length calls ≤ config.success_threshold
      → (run config func calls b w).0 ≡ (
          if leb config.success_threshold (b.success_count + length calls)
          then record b {
            state = closed;
            failure_count = 0;
            success_count = b.success_count + length calls;
          }
          else record b { success_count = b.success_count + length calls })
  unfolding run
  run-recovers [] b w on succeeds half below fits = ground arith
  run-recovers ((started, finished) ∷ []) b w on succeeds half below fits =
      half_open_success started finished b w on succeeds half
  run-recovers ((started, finished) ∷ c ∷ calls) b w on succeeds half below fits =
      let after = execute config func started finished b w in
      let stepped = half_open_success started finished b w on succeeds half in
      ground (arith, run-recovers (c ∷ calls) after.1 after.2 on succeeds)

  admit_late :
      (started : ℕ) (b : CircuitBreaker) (last : ℕ)
      → b.state ≡ opened
      → b.last_failure_time ≡ some last
      → last + config.recovery_timeout ≤ started
      → admit config started b ≡ some (record b { state = half_open; success_count = 0 })
  unfolding admit
  admit_late started b last is_open at late = ground arith

  admit_half_open :
      (started : ℕ) (b : CircuitBreaker) → b.state ≡ half_open → admit config started b ≡ some b
  unfolding admit
  admit_half_open started b half = ground arith

  -- An open circuit whose timeout has passed admits a probe, and a probe that fails opens it again
  -- with a new failure time, so that the timeout starts anew.
  pub probe_failure :
      (started finished : ℕ) (b : CircuitBreaker) (w : W) (last : ℕ)
      → config.enabled ≡ true
      → AlwaysFails func
      → b.state ≡ opened
      → b.last_failure_time ≡ some last
      → last + config.recovery_timeout ≤ started
      → ((execute config func started finished b w).1.state ≡ opened)
        × ((execute config func started finished b w).1.last_failure_time ≡ some finished)
        × ((execute config func started finished b w).2 ≡ (func w).1)
  unfolding on_failure execute proceed settle
  probe_failure started finished b w last on fails is_open at late =
      ground (arith, admit_late started b last is_open at late, fails w)
