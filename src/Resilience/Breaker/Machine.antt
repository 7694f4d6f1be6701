-- ===== src/Resilience/Breaker/Machine.antt =====
-- The circuit breaker as a state machine.
use optorch.Base.{
  ℕ, ◌≤◌, ◌<◌, ◌≡◌, ◌≢◌, refl, true, false, List, [], ◌∷◌, Option, none, some, Outcome, ok, raise,
  arith, if◌then◌else◌,
}
use optorch.Resilience.Breaker.{
  closed, half_open, CircuitBreakerConfig, CircuitBreaker, unprotected, on_success, on_failure,
  admit, settle, proceed, execute, run,
}

-- What holds between calls: a closed circuit is below its threshold, a half-open one has not seen
-- enough successes, and one that is not closed knows when it failed.
pub record IsValid (config : CircuitBreakerConfig) (b : CircuitBreaker) : Type 0 where
  pub below_threshold : b.state ≡ closed → b.failure_count < config.failure_threshold
  pub probing : b.state ≡ half_open → b.success_count < config.success_threshold
  pub has_failed : b.state ≢ closed → b.last_failure_time ≢ none

-- Every call of `func` raises; every call returns.
abbrev pub AlwaysFails : {W E A : Type 0} → (W → Outcome E A × W) → Type 0
AlwaysFails {W} {E} func = (w : W) → (e : E) × ((func w).0 ≡ raise e)

abbrev pub AlwaysSucceeds : {W E A : Type 0} → (W → Outcome E A × W) → Type 0
AlwaysSucceeds {W} {A = A} func = (w : W) → (a : A) × ((func w).0 ≡ ok a)

module _ (config : CircuitBreakerConfig) where
  on_success-IsValid :
      1 ≤ config.failure_threshold
      → (b : CircuitBreaker) → IsValid config b
      → IsValid config (on_success config b)
  unfolding on_success
  on_success-IsValid p b h = record {
    below_threshold = ground arith;
    probing = ground arith;
    has_failed = ground arith;
  }

  on_failure-IsValid :
      (now : ℕ) (b : CircuitBreaker) → IsValid config b → IsValid config (on_failure config now b)
  unfolding on_failure
  on_failure-IsValid now b h = record {
    below_threshold = ground arith;
    probing = ground arith;
    has_failed = ground arith;
  }

  admit-IsValid :
      1 ≤ config.success_threshold
      → (now : ℕ) (b : CircuitBreaker) {b' : CircuitBreaker} → IsValid config b
      → admit config now b ≡ some b'
      → IsValid config b'
  unfolding admit
  admit-IsValid p now b h e = record {
    below_threshold = ground arith;
    probing = ground arith;
    has_failed = ground arith;
  }

  module _ {W E A : Type 0} where
    settle-IsValid :
        1 ≤ config.failure_threshold
        → (finished : ℕ) (r : Outcome E A × W) (b : CircuitBreaker) → IsValid config b
        → IsValid config (settle config finished r b).1
    unfolding settle
    settle-IsValid p finished (ok a, w) b h = on_success-IsValid p b h
    settle-IsValid p finished (raise e, w) b h = on_failure-IsValid finished b h

    unprotected-IsValid :
        (r : Outcome E A × W) (b : CircuitBreaker)
        → IsValid config b
        → IsValid config (unprotected r b).1
    unfolding unprotected
    unprotected-IsValid (ok a, w) b h = h
    unprotected-IsValid (raise e, w) b h = h

    proceed-IsValid :
        1 ≤ config.failure_threshold
        → (func : W → Outcome E A × W) (finished : ℕ) (admitted : Option CircuitBreaker)
          (b : CircuitBreaker) (w : W)
        → IsValid config b
        → ((b' : CircuitBreaker) → admitted ≡ some b' → IsValid config b')
        → IsValid config (proceed config func finished admitted b w).1
    unfolding proceed
    proceed-IsValid p func finished none b w h k = h
    proceed-IsValid p func finished (some b') b w h k =
        settle-IsValid p finished (func w) b' (k b' refl)

    execute-IsValid :
        1 ≤ config.failure_threshold
        → 1 ≤ config.success_threshold
        → (func : W → Outcome E A × W) (started finished : ℕ) (b : CircuitBreaker) (w : W)
        → IsValid config b
        → IsValid config (execute config func started finished b w).1
    unfolding execute
    execute-IsValid p q func started finished b w h =
        elim config.enabled
          as (λ t.
            IsValid config
              (if t
                then proceed config func finished (admit config started b) b w
                else unprotected (func w) b).1) [
                  | true ↦
                      proceed-IsValid p func finished (admit config started b) b w h
                        (λ b'. admit-IsValid q started b h)
                  | false ↦ unprotected-IsValid (func w) b h
                ]

    -- However the calls end and whenever they are made, the breaker is valid after each of them.
    pub run-IsValid :
        1 ≤ config.failure_threshold
        → 1 ≤ config.success_threshold
        → (func : W → Outcome E A × W) (calls : List (ℕ × ℕ)) (b : CircuitBreaker) (w : W)
        → IsValid config b
        → IsValid config (run config func calls b w).0
    unfolding run
    run-IsValid p q func [] b w h = h
    run-IsValid p q func ((started, finished) ∷ calls) b w h =
        run-IsValid p q func calls _ _ (execute-IsValid p q func started finished b w h)
