-- ===== src/Workflow/Intents.antt =====
-- `IntentRegistry` of intents/intent_registry.py and `IntentContext` of intents/intent_context.py: the intents that
-- run before and after a node.
pub mod Order
use optorch.Base.{
  ◌≡◌, refl, Bool, true, false, String, List, [], ◌∷◌, Option, none, some, Outcome, ok, raise,
  if◌then◌else◌,
}
use optorch.Base.Dict
use optorch.Base.Dict.{Dict}
use optorch.Workflow.State.{State}

-- a state that an intent hands on: the one of the context itself, or another one
pub data Given : Type 0 where
  same_state : Given
  another : State → Given

-- the fields that the code reads; `state` is the field `data`, one object, which the intents alter
pub record IntentContext : Type 0 where
  pub operation : String
  pub state : State
  pub skip_execution : Bool
  pub result : Option Given

-- `BaseIntentHandler`; of the result of `execute` only a state counts
pub record IntentHandler (E W : Type 0) : Type 0 where
  pub should_execute : IntentContext → W → Bool
  pub execute : IntentContext → W → Outcome E (IntentContext × Option Given) × W

abbrev pub IntentRegistry : Type 0 → Type 0 → Type 0
IntentRegistry E W = Dict (IntentHandler E W)

abbrev pub Results : Type 0
Results = Dict (Option Given)

abbrev pub Executed : Type 0 → Type 0 → Type 0
Executed E W = Outcome E (IntentContext × Results) × W

module _ {E W : Type 0} where
  unfoldable pub execute :
      IntentHandler E W → IntentContext → W → Outcome E (IntentContext × Option Given) × W
  execute handler context world =
      if handler.should_execute context world
      then handler.execute context world
      else (ok (context, none), world)

  -- after one intent, with the loop over those that follow
  unfoldable pub after_intent :
      String
      → Results
      → Outcome E (IntentContext × Option Given) × W
      → (IntentContext → Results → W → Executed E W)
      → Executed E W
  after_intent intent_name results (raise error, world) others = (raise error, world)
  after_intent intent_name results (ok (context, result), world) others =
      let kept = Dict.insert intent_name result results in
      let later = others context kept world in
      if context.skip_execution then (ok (context, kept), world) else later

  unfoldable pub execute_multiple :
      IntentRegistry E W → List String → IntentContext → Results → W → Executed E W
  execute_multiple handlers [] context results world = (ok (context, results), world)
  execute_multiple handlers (intent_name ∷ intent_names) context results world =
      elim (Dict.get intent_name handlers) [
        | none ↦ execute_multiple handlers intent_names context results world
        | some handler ↦
            after_intent intent_name results (execute handler context world)
              (execute_multiple handlers intent_names)
      ]

-- the last state among the results
unfoldable pub last_state : Results → Option Given → Option Given
last_state [] before = before
last_state ((intent_name, none) ∷ results) before = last_state results before
last_state ((intent_name, some given) ∷ results) before = last_state results (some given)

unfoldable pub chosen : IntentContext → Results → Option Given
chosen context results = elim context.result [
  | none ↦ last_state results none
  | some given ↦ some given
]

abbrev pub other_state : Option Given → Option State
other_state none = none
other_state (some same_state) = none
other_state (some (another state)) = some state
