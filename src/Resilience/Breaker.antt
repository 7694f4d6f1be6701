-- ===== src/Resilience/Breaker.antt =====
-- storage/resilience/strategies/circuit_breaker.py. The protected call `func` acts on a world `W`.
-- Times are numbers of clock ticks: `started` is what `time.time()` reads before the call, and
-- `finished` what it reads in `_on_failure`.
pub mod Machine
pub mod Runs
mod Tests
use optorch.Base.{
  ℕ, suc, ◌+◌, Bool, true, false, List, [], ◌∷◌, Option, none, some, Outcome, ok, raise, leb,
  if◌then◌else◌,
}

pub data CircuitState : Type 0 where
  closed opened half_open : CircuitState

-- `CircuitBreakerConfig` of storage/config.py
pub record CircuitBreakerConfig : Type 0 where
  pub enabled : Bool
  pub failure_threshold : ℕ
  pub recovery_timeout : ℕ
  pub success_threshold : ℕ

pub record CircuitBreaker : Type 0 where
  pub state : CircuitState
  pub failure_count : ℕ
  pub success_count : ℕ
  pub last_failure_time : Option ℕ

-- What a call may raise: `CircuitBreakerOpenError`, or what `func` raised.
pub data Failure (E : Type 0) : Type 0 where
  circuit_open : Failure E
  failed : E → Failure E

abbrev pub init : CircuitBreaker
init = record { state = closed; failure_count = 0; success_count = 0; last_failure_time = none }

-- `now - last >= recovery_timeout`, with the subtraction moved to the other side
should_attempt_reset : CircuitBreakerConfig → CircuitBreaker → ℕ → Bool
should_attempt_reset config b now = elim b.last_failure_time [
  | none ↦ false
  | some last ↦ leb (last + config.recovery_timeout) now
]

on_half_open_success : CircuitBreakerConfig → CircuitBreaker → CircuitBreaker
on_half_open_success config b =
    if leb config.success_threshold (b.success_count + 1)
    then record b { state = closed; failure_count = 0; success_count = b.success_count + 1 }
    else record b { success_count = b.success_count + 1 }

on_success : CircuitBreakerConfig → CircuitBreaker → CircuitBreaker
unfolding on_half_open_success
on_success config b = elim b.state [
  | half_open ↦ on_half_open_success config b
  | closed ↦ record b { failure_count = 0 }
  | opened ↦ b
]

on_failure : CircuitBreakerConfig → ℕ → CircuitBreaker → CircuitBreaker
on_failure config now b =
    let counted = record b { failure_count = b.failure_count + 1; last_failure_time = some now } in
    elim b.state [
      | half_open ↦ record counted { state = opened }
      | _ ↦
          if leb config.failure_threshold (b.failure_count + 1)
          then record counted { state = opened }
          else counted
    ]

-- The test before the call: `none` if the call is rejected.
admit : CircuitBreakerConfig → ℕ → CircuitBreaker → Option CircuitBreaker
unfolding should_attempt_reset
admit config now b = elim b.state [
  | opened ↦
      if should_attempt_reset config b now
      then some (record b { state = half_open; success_count = 0 })
      else none
  | _ ↦ some b
]

module _ {W E A : Type 0} where
  unprotected : Outcome E A × W → CircuitBreaker → Outcome (Failure E) A × CircuitBreaker × W
  unprotected (ok a, w) b = (ok a, b, w)
  unprotected (raise e, w) b = (raise (failed e), b, w)

  -- the `try`/`except` around the call
  settle :
      CircuitBreakerConfig
      → ℕ
      → Outcome E A × W
      → CircuitBreaker
      → Outcome (Failure E) A × CircuitBreaker × W
  settle config finished (ok a, w) b = (ok a, on_success config b, w)
  settle config finished (raise e, w) b = (raise (failed e), on_failure config finished b, w)

  -- A rejected call leaves the breaker and the world as they are.
  proceed :
      CircuitBreakerConfig
      → (W → Outcome E A × W)
      → ℕ
      → Option CircuitBreaker
      → CircuitBreaker
      → W
      → Outcome (Failure E) A × CircuitBreaker × W
  proceed config func finished none b w = (raise circuit_open, b, w)
  proceed config func finished (some admitted) b w = settle config finished (func w) admitted

  pub execute :
      CircuitBreakerConfig
      → (W → Outcome E A × W)
      → (started finished : ℕ) → CircuitBreaker
      → W
      → Outcome (Failure E) A × CircuitBreaker × W
  execute config func started finished b w =
      if config.enabled
      then proceed config func finished (admit config started b) b w
      else unprotected (func w) b

  -- Calls one after the other, each with its two times, whatever they return or raise.
  pub run :
      CircuitBreakerConfig
      → (W → Outcome E A × W)
      → List (ℕ × ℕ)
      → CircuitBreaker
      → W
      → CircuitBreaker × W
  run config func [] b w = (b, w)
  run config func ((started, finished) ∷ calls) b w =
      let (_, b', w') = execute config func started finished b w in run config func calls b' w'
