-- ===== src/Workflow/Failures.antt =====
-- `FailureTypeRegistry` of retry/failure_type_registry.py: what follows the last failed attempt.
use optorch.Base.{Bool, true, String, List, [], ◌∷◌, Option, none, some, Outcome, ok, raise, ℕ}
use optorch.Base.Dict
use optorch.Base.Dict.{Dict}
use optorch.Workflow.State.{Value, null, text, flag, State, get, set}

-- the entries of the retry section that the handlers and the loop read
pub record RetryConfig : Type 0 where
  pub enabled : Bool
  pub max_attempts : ℕ
  pub on_failure : String
  pub default_value : List (String × Value)
  pub fallback_node : Value
  pub escalation_message : String

module _ {E : Type 0} (format : String → Value → Outcome E String) where
  abbrev pub Handler : Type 0
  Handler = State → RetryConfig → Outcome E State

  unfoldable pub halt : Handler
  halt state config = ok state

  unfoldable pub set_all : List (String × Value) → State → State
  set_all [] state = state
  set_all ((key, value) ∷ items) state = set_all items (set key value state)

  unfoldable pub use_defaults : Handler
  use_defaults state config = ok (set "error" null (set_all config.default_value state))

  unfoldable pub skip : Handler
  skip state config = ok (set "error" null state)

  unfoldable pub fallback : Handler
  fallback state config = ok (set "error" null (set "_retry_fallback" config.fallback_node state))

  unfoldable pub escalated : Outcome E String → State → Outcome E State
  escalated (raise error) state = raise error
  escalated (ok message) state =
      ok (
        set "_needs_user_input" (flag true)
          (set "error" null (set "response" (text message) state)))

  unfoldable pub escalate : Handler
  escalate state config = escalated (format config.escalation_message (get "error" state)) state

  abbrev pub FailureTypeRegistry : Type 0
  FailureTypeRegistry = Dict Handler

  unfoldable pub register : String → Handler → FailureTypeRegistry → FailureTypeRegistry
  register name handler handlers = Dict.insert name handler handlers

  unfoldable pub defaults : FailureTypeRegistry
  defaults = register "escalate" escalate (
      register "fallback" fallback
        (register "skip" skip (register "use_defaults" use_defaults (register "halt" halt []))))

  abbrev pub or_halt : Option Handler → Handler
  or_halt none state config = ok state
  or_halt (some handler) state config = handler state config

  unfoldable pub handle : FailureTypeRegistry → String → Handler
  handle handlers failure_type state config = or_halt (Dict.get failure_type handlers) state config
