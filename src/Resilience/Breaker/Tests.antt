-- ===== src/Resilience/Breaker/Tests.antt =====
-- Runs of the circuit breaker at concrete times, with a counter of the calls that reach the store.
use optorch.Base.{ℕ, ◌+◌, ◌≡◌, refl, true, String, [], ◌∷◌, some, Outcome, ok, raise, arith}
use optorch.Resilience.Breaker.{
  closed, opened, half_open, CircuitBreakerConfig, CircuitBreaker, init, on_success, on_failure,
  admit, settle, proceed, execute, run,
}
use optorch.Resilience.Breaker.Machine.{IsValid, run-IsValid}
use optorch.Resilience.Breaker.Runs.{run-trips, run-rejects, run-recovers}

abbrev config : CircuitBreakerConfig
config = record {
  enabled = true;
  failure_threshold = 2;
  recovery_timeout = 60;
  success_threshold = 2;
}

abbrev down : ℕ → Outcome String ℕ × ℕ
down calls = (raise "down", calls + 1)

abbrev up : ℕ → Outcome String ℕ × ℕ
up calls = (ok calls, calls + 1)

abbrev tripped : CircuitBreaker
tripped = record {
  state = opened;
  failure_count = 2;
  success_count = 0;
  last_failure_time = some 8;
}

abbrev probed : CircuitBreaker
probed = record {
  state = half_open;
  failure_count = 2;
  success_count = 0;
  last_failure_time = some 8;
}

-- Two failures trip the circuit, the third call is rejected and the store is not called again.
trip_and_reject : run config down ((1, 2) ∷ (7, 8) ∷ (9, 9) ∷ []) init 0 ≡ (tripped, 2)
unfolding run execute proceed settle admit on_failure
trip_and_reject = refl

reset_by_success : (execute config up 1 2 (record init { failure_count = 1 }) 0).1 ≡ init
unfolding execute proceed settle admit on_success
reset_by_success = refl

init-IsValid : IsValid config init
init-IsValid = record {
  below_threshold = λ _. omega arith;
  probing = λ e. cc;
  has_failed = λ e. absurd (e refl);
}

run-IsValid_example : IsValid config (run config down ((1, 2) ∷ (7, 8) ∷ []) init 0).0
run-IsValid_example =
    run-IsValid config (omega arith) (omega arith) down ((1, 2) ∷ (7, 8) ∷ []) init 0 init-IsValid

run-trips_example : (run config down ((1, 2) ∷ (7, 8) ∷ []) init 0).0.state ≡ opened
run-trips_example =
    run-trips config down ((1, 2) ∷ (7, 8) ∷ []) init 0 refl (λ w. ("down", refl)) refl
      (omega arith) (omega arith)

run-rejects_example : run config up ((9, 9) ∷ (67, 67) ∷ []) tripped 2 ≡ (tripped, 2)
run-rejects_example =
    run-rejects config up ((9, 9) ∷ (67, 67) ∷ []) tripped 2 8 refl refl refl (omega arith)

run-recovers_example :
    (run config up ((68, 69) ∷ (70, 71) ∷ []) probed 2).0
    ≡ record probed { state = closed; failure_count = 0; success_count = 2 }
run-recovers_example =
    run-recovers config up ((68, 69) ∷ (70, 71) ∷ []) probed 2 refl (λ w. (w, refl)) refl
      (omega arith) (omega arith)
