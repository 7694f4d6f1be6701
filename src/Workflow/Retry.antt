-- ===== src/Workflow/Retry.antt =====
-- `RetryHandler.execute_with_retry` of retry/retry_handler.py. A node reports a failure by a true entry "error" of the
-- state that it returns; an exception is not retried.
pub mod Outcomes
use optorch.Base.{
  ◌≡◌, refl, ℕ, zero, suc, Bool, true, false, String, Option, none, some, Outcome, ok, raise,
  if◌then◌else◌,
}
use optorch.Workflow.State.{Value, null, State, truthy, get, set, Cell, result_of}
use optorch.Workflow.Failures.{RetryConfig, FailureTypeRegistry, handle}

-- what is raised: by the code that is called, for a loop without an attempt, and by the routing
pub data Failure (E : Type 0) : Type 0 where
  raised : E → Failure E
  unbound_result : Failure E
  type_error : Failure E
  missing_key : Failure E
  unknown_node : Failure E

abbrev pub or_raised : {E A : Type 0} → Outcome E A → Outcome (Failure E) A
or_raised (ok value) = ok value
or_raised (raise error) = raise (raised error)

module _ {E W : Type 0} (format : String → Value → Outcome E String)
    (handlers : FailureTypeRegistry format) (sleep : W → W)
    (execute_fn : State → W → Outcome E Cell × W) where
  abbrev pub Result : Type 0
  Result = Outcome (Failure E) State × W

  -- after an attempt, when `rounds` more are left, with the rest of the loop
  unfoldable pub after_attempt :
      RetryConfig → ℕ → Outcome E Cell × W → (State → W → Result) → Result
  after_attempt config rounds (raise error, world) retry = (raise (raised error), world)
  after_attempt config zero (ok cell, world) retry =
      if truthy (get "error" (result_of cell))
      then (or_raised (handle format handlers config.on_failure cell.original config), world)
      else (ok (result_of cell), world)
  after_attempt config (suc rounds) (ok cell, world) retry =
      let again = retry (set "error" null cell.original) (sleep world) in
      if truthy (get "error" (result_of cell)) then again else (ok (result_of cell), world)

  unfoldable pub attempts : RetryConfig → ℕ → State → W → Result
  attempts config zero state world = (raise unbound_result, world)
  attempts config (suc rounds) state world =
      after_attempt config rounds (execute_fn state world) (attempts config rounds)

  abbrev pub returned_result : Outcome E Cell × W → Result
  returned_result (raise error, world) = (raise (raised error), world)
  returned_result (ok cell, world) = (ok (result_of cell), world)

  unfoldable pub execute_with_retry : Option RetryConfig → State → W → Result
  execute_with_retry none state world = returned_result (execute_fn state world)
  execute_with_retry (some config) state world =
      let retried = attempts config config.max_attempts state world in
      if config.enabled then retried else returned_result (execute_fn state world)
