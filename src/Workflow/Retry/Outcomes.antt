-- ===== src/Workflow/Retry/Outcomes.antt =====
-- What a caller of `execute_with_retry` gets.
use optorch.Base.{
  ◌≡◌, refl, ℕ, zero, suc, ◌+◌, ◌≤◌, ◌<◌, ◌≢◌, Bool, true, false, String, Option, some, Outcome, ok,
  raise, if◌then◌else◌, ◌==◌, if_both, sym, ap, subst, ◌∙◌, arith, eq_iff,
}
use optorch.Base.Dict
use optorch.Base.Dict.{Dict}
use optorch.Workflow.State.{
  Value, null, text, flag, State, truthy, get, set, get-set, Cell, result_of,
}
use optorch.Workflow.Failures.{
  RetryConfig, FailureTypeRegistry, register, use_defaults, skip, fallback, escalate, escalated,
  defaults, or_halt, handle,
}
use optorch.Workflow.Retry.{
  Failure, or_raised, after_attempt, attempts, returned_result, execute_with_retry,
}

-- a state that reports no failure
unfoldable pub WithoutError : State → Type 0
WithoutError state = truthy (get "error" state) ≡ false

-- what is returned, if anything is, reports no failure
unfoldable pub OkWithoutError : {F : Type 0} → Outcome F State → Type 0
OkWithoutError (raise error) = Unit
OkWithoutError (ok state) = WithoutError state

-- the handler clears the report
Clears : {E : Type 0} → (State → RetryConfig → Outcome E State) → Type 0
Clears handler = (state : State) (config : RetryConfig) → OkWithoutError (handler state config)

set_error-WithoutError : (state : State) → WithoutError (set "error" null state)
unfolding WithoutError
set_error-WithoutError state = ap truthy (get-set "error" "error" null state)

set_other-WithoutError :
    (key : String) (v : Value) (state : State)
    → (key == "error") ≡ false
    → WithoutError state
    → WithoutError (set key v state)
unfolding WithoutError
set_other-WithoutError key v state other clear =
    ap truthy (get-set key "error" v state)
    ∙ ap (λ b. truthy (if b then v else get "error" state)) other
    ∙ clear

module _ {E : Type 0} (format : String → Value → Outcome E String) where
  escalated-OkWithoutError :
      (message : Outcome E String) (state : State) → OkWithoutError (escalated format message state)
  unfolding escalated OkWithoutError
  escalated-OkWithoutError (raise error) state = tt
  escalated-OkWithoutError (ok message) state =
      set_other-WithoutError "_needs_user_input" (flag true) _ refl
        (set_error-WithoutError (set "response" (text message) state))

  use_defaults-Clears : Clears (use_defaults format)
  unfolding Clears use_defaults OkWithoutError
  use_defaults-Clears state config = set_error-WithoutError _

  skip-Clears : Clears (skip format)
  unfolding Clears skip OkWithoutError
  skip-Clears state config = set_error-WithoutError state

  fallback-Clears : Clears (fallback format)
  unfolding Clears fallback OkWithoutError
  fallback-Clears state config = set_error-WithoutError _

  escalate-Clears : Clears (escalate format)
  unfolding Clears escalate
  escalate-Clears state config =
      escalated-OkWithoutError (format config.escalation_message (get "error" state)) state

  -- of the handlers that are registered, only "halt" may leave the report of a failure
  default-Clears :
      (name : String)
      → name ≢ "halt"
      → Dict.has name (defaults format) ≡ true
      → Clears (handle format (defaults format) name)
  unfolding handle defaults register Dict.get Dict.has Dict.insert Clears
  default-Clears name other known state config =
      if_both P ("halt" == name) _ _ (λ h. absurd (other (sym ((eq_iff "halt" name).0 h))))
        (λ h0.
          if_both P ("use_defaults" == name) _ _ (λ _. use_defaults-Clears state config)
            (λ h1.
              if_both P ("skip" == name) _ _ (λ _. skip-Clears state config)
                (λ h2.
                  if_both P ("fallback" == name) _ _ (λ _. fallback-Clears state config)
                    (λ h3.
                      if_both P ("escalate" == name) _ _ (λ _. escalate-Clears state config)
                        (λ h4. absurd (ground (arith, known, h0, h1, h2, h3, h4)))))))
    where
      P : Option (State → RetryConfig → Outcome E State) → Type 0
      P handler = OkWithoutError (or_halt format handler state config)

module _ {E W : Type 0} (format : String → Value → Outcome E String)
    (handlers : FailureTypeRegistry format) (sleep : W → W)
    (execute_fn : State → W → Outcome E Cell × W) (config : RetryConfig) where
  or_raised-OkWithoutError : (o : Outcome E State) → OkWithoutError o → OkWithoutError (or_raised o)
  unfolding OkWithoutError
  or_raised-OkWithoutError (raise error) clear = tt
  or_raised-OkWithoutError (ok state) clear = clear

  attempts-OkWithoutError :
      Clears (handle format handlers config.on_failure)
      → (rounds : ℕ) (state : State) (world : W)
      → OkWithoutError (attempts format handlers sleep execute_fn config rounds state world).0
  unfolding attempts OkWithoutError Clears after_attempt WithoutError
  attempts-OkWithoutError clears zero state world = tt
  attempts-OkWithoutError clears (suc rounds) state world =
      after rounds (execute_fn state world)
        (attempts format handlers sleep execute_fn config rounds)
        (attempts-OkWithoutError clears rounds)
    where
      after :
          (rounds : ℕ) (result : Outcome E Cell × W)
          (retry : State → W → Outcome (Failure E) State × W)
          → ((s : State) (w : W) → OkWithoutError (retry s w).0)
          → OkWithoutError
              (after_attempt format handlers sleep execute_fn config rounds result retry).0
      after rounds (raise error, w) retry later = tt
      after zero (ok cell, w) retry later =
          if_both (λ (r : Outcome (Failure E) State × W). OkWithoutError r.0)
            (truthy (get "error" (result_of cell))) _ _
            (λ _. or_raised-OkWithoutError _ (clears cell.original config)) (λ clear. clear)
      after (suc rounds) (ok cell, w) retry later =
          if_both (λ (r : Outcome (Failure E) State × W). OkWithoutError r.0)
            (truthy (get "error" (result_of cell))) _ _ (λ _. later _ _) (λ clear. clear)

-- With the handlers of the library, and another of them than "halt" named in an enabled retry section: whatever the
-- node does, a state that is returned has no true entry "error".
pub execute_with_retry-OkWithoutError :
    {E W : Type 0} (format : String → Value → Outcome E String) (sleep : W → W)
    (execute_fn : State → W → Outcome E Cell × W) (config : RetryConfig)
    → config.enabled ≡ true
    → config.on_failure ≢ "halt"
    → Dict.has config.on_failure (defaults format) ≡ true
    → (state : State) (world : W)
    → OkWithoutError
        (execute_with_retry format (defaults format) sleep execute_fn (some config) state world).0
unfolding execute_with_retry
execute_with_retry-OkWithoutError {E = E} {W = W} format sleep execute_fn config enabled other known
      state world =
    subst (λ b. OkWithoutError (chosen b).0) (sym enabled)
      (attempts-OkWithoutError format (defaults format) sleep execute_fn config
        (default-Clears format config.on_failure other known) config.max_attempts state world)
  where
    chosen : Bool → Outcome (Failure E) State × W
    chosen b =
        if b
        then attempts format (defaults format) sleep execute_fn config config.max_attempts state
            world
        else returned_result format (defaults format) sleep execute_fn (execute_fn state world)

-- the calls of the node are counted: one for each, and none while the loop sleeps
unfoldable pub Counts :
    {E W : Type 0} → (W → ℕ) → (W → W) → (State → W → Outcome E Cell × W) → Type 0
Counts {W = W} calls sleep execute_fn =
    ((world : W) → calls (sleep world) ≡ calls world)
    × ((state : State) (world : W) → calls (execute_fn state world).1 ≡ suc (calls world))

module _ {E W : Type 0} (format : String → Value → Outcome E String)
    (handlers : FailureTypeRegistry format) (sleep : W → W)
    (execute_fn : State → W → Outcome E Cell × W) (config : RetryConfig) (calls : W → ℕ)
    (counts : Counts calls sleep execute_fn) where
  calls-attempts :
      (rounds : ℕ) (state : State) (world : W)
      → (calls (attempts format handlers sleep execute_fn config rounds state world).1
          ≤ calls world + rounds)
        × (1 ≤ rounds
            → calls world
              < calls (attempts format handlers sleep execute_fn config rounds state world).1)
  unfolding attempts Counts after_attempt
  calls-attempts zero state world =
      (ground arith, λ some_round. absurd (ground (arith, some_round)))
  calls-attempts (suc rounds) state world =
      after rounds (execute_fn state world)
        (attempts format handlers sleep execute_fn config rounds) (counts.1 state world)
        (calls-attempts rounds)
    where
      Within : ℕ → Outcome (Failure E) State × W → Type 0
      Within rounds r =
          (calls r.1 ≤ calls world + suc rounds) × (1 ≤ suc rounds → calls world < calls r.1)

      after :
          (rounds : ℕ) (result : Outcome E Cell × W)
          (retry : State → W → Outcome (Failure E) State × W)
          → calls result.1 ≡ suc (calls world)
          → ((s : State) (w : W)
              → (calls (retry s w).1 ≤ calls w + rounds)
                × (1 ≤ rounds → calls w < calls (retry s w).1))
          → Within rounds
              (after_attempt format handlers sleep execute_fn config rounds result retry)
      after rounds (raise error, w) retry once later =
          (ground (arith, once), λ _. ground (arith, once))
      after zero (ok cell, w) retry once later =
          if_both (Within zero) (truthy (get "error" (result_of cell))) _ _
            (λ _. (ground (arith, once), λ _. ground (arith, once)))
            (λ _. (ground (arith, once), λ _. ground (arith, once)))
      after (suc rounds) (ok cell, w) retry once later =
          if_both (Within (suc rounds)) (truthy (get "error" (result_of cell))) _ _
            (λ _.
              let (most, least) = later (set "error" null cell.original) (sleep w) in
              (
                ground (arith, once, counts.0 w, most),
                λ _. ground (arith, once, counts.0 w, least (ground arith)),
              ))
            (λ _. (ground (arith, once), λ _. ground (arith, once)))

-- An enabled retry section with some attempts: whatever the node returns and raises, it is called at least once and
-- at most `max_attempts` times.
pub execute_with_retry_bounds :
    {E W : Type 0} (format : String → Value → Outcome E String)
    (handlers : FailureTypeRegistry format) (sleep : W → W)
    (execute_fn : State → W → Outcome E Cell × W) (calls : W → ℕ)
    → Counts calls sleep execute_fn
    → (config : RetryConfig) → config.enabled ≡ true
    → 1 ≤ config.max_attempts
    → (state : State) (world after : W) (outcome : Outcome (Failure E) State)
    → execute_with_retry format handlers sleep execute_fn (some config) state world
      ≡ (outcome, after)
    → (calls world < calls after) × (calls after ≤ calls world + config.max_attempts)
unfolding execute_with_retry
execute_with_retry_bounds {E = E} {W = W} format handlers sleep execute_fn calls counts config
      enabled some_attempt state world after outcome e =
    let (most, least) =
      calls-attempts format handlers sleep execute_fn config calls counts config.max_attempts state
        world in
    (ground (arith, least some_attempt, same_calls), ground (arith, most, same_calls))
  where
    chosen : Bool → Outcome (Failure E) State × W
    chosen b =
        if b
        then attempts format handlers sleep execute_fn config config.max_attempts state world
        else returned_result format handlers sleep execute_fn (execute_fn state world)

    same_calls :
        calls (attempts format handlers sleep execute_fn config config.max_attempts state world).1
        ≡ calls after
    same_calls =
        ap (λ b. calls (chosen b).1) (sym enabled)
        ∙ ap (λ (r : Outcome (Failure E) State × W). calls r.1) e
