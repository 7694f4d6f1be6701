-- ===== src/Llm/ToolExecutor.antt =====
-- `ToolExecutor.process` of llm/processors/tool_executor.py: the loop that runs the tools that a response asks
-- for, and asks the model again. The model's client, the tools and json are parameters that act on a
-- world or raise; what `error_context` adds to an exception is left out.
pub mod Rounds
pub mod Substates
mod Tests
use optorch.Base.{
  ℕ, zero, suc, ◌+◌, String, List, [], ◌∷◌, ◌++◌, Option, none, some, Bool, true, false, Outcome,
  ok, raise,
}
use optorch.Base.Texts.{◌<>◌}

-- `call.function.arguments`: a text in JSON, or parsed already
pub data Arguments (A : Type 0) : Type 0 where
  text : String → Arguments A
  parsed : A → Arguments A

pub record ToolCall (A : Type 0) : Type 0 where
  pub tool_name : Option String
  pub arguments : Arguments A
  pub tool_id : Option String

pub record Response (A : Type 0) : Type 0 where
  pub content : String
  -- empty where it is missing
  pub tool_calls : List (ToolCall A)

-- A dict that a tool returns: `get("success")`, `get("error")`, the details in JSON where they are true, the
-- whole in JSON, and `str` of it. The encoder may raise.
pub record DictResult (E : Type 0) : Type 0 where
  pub success : Option Bool
  pub error : Option String
  pub details : Option (Outcome E String)
  pub dumped : Outcome E String
  pub shown : String

pub data ToolResult (E : Type 0) : Type 0 where
  dict : DictResult E → ToolResult E
  -- `str` of any other value
  other : String → ToolResult E

-- `context.messages`: those of before the call of `process`, and those that it appends
pub data Message (A M : Type 0) : Type 0 where
  given : M → Message A M
  assistant : String → List (ToolCall A) → Message A M
  tool : Option String → String → Message A M

pub record Client (E W A M : Type 0) : Type 0 where
  pub raw_invoke : List String → List (Message A M) → W → Outcome E (Response A) × W

-- the registry of tools, which the controller has
pub record Controller (E W A : Type 0) : Type 0 where
  -- `json.loads`, and the unpacking of an object into named arguments
  pub loads : String → Outcome E A
  pub execute_tool : Option String → A → W → Outcome E (ToolResult E) × W
  pub show : E → String

pub data Failure (E : Type 0) : Type 0 where
  no_controller : Failure E
  no_client : ℕ → Failure E
  raised : E → Failure E

pub record Context (E W A M : Type 0) : Type 0 where
  pub response : Option (Response A)
  pub messages : List (Message A M)
  pub active_substates : List String
  pub client : Option (Client E W A M)
  pub controller : Option (Controller E W A)
  -- the entry "tools" of the configuration, empty where it is missing
  pub tools : List String

abbrev pub max_iterations : ℕ
max_iterations = 10

abbrev pub calls_of : {A : Type 0} → Option (Response A) → List (ToolCall A)
calls_of none = []
calls_of (some response) = response.tool_calls

abbrev pub content_of : {A : Type 0} → Option (Response A) → String
content_of none = ""
content_of (some response) = response.content

abbrev pub error_text : Option String → String
error_text none = "Unknown error"
error_text (some error) = error

module _ {E : Type 0} where
  abbrev pub with_details : String → Option (Outcome E String) → Outcome E String
  with_details s none = ok s
  with_details s (some (ok details)) = ok (s <> "\nDetails: " <> details)
  with_details s (some (raise error)) = raise error

  unfoldable pub result_str : ToolResult E → Outcome E String
  result_str (other s) = ok s
  result_str (dict result) = elim result.success [
    | some false ↦ with_details ("Error: " <> error_text result.error) result.details
    | some true ↦ result.dumped
    | none ↦ ok result.shown
  ]

module _ {E W A : Type 0} (controller : Controller E W A) where
  abbrev pub args_of : Arguments A → Outcome E A
  args_of (text s) = controller.loads s
  args_of (parsed args) = ok args

  -- what is answered to a call: its result, or the exception as a text
  abbrev pub or_error : Outcome E String → String
  or_error (ok s) = s
  or_error (raise error) = "Error: " <> controller.show error

  unfoldable pub shown_result : Outcome E (ToolResult E) × W → String × W
  shown_result (ok result, world) = (or_error (result_str result), world)
  shown_result (raise error, world) = (or_error (raise error), world)

  unfoldable pub run_with : Option String → Outcome E A → W → String × W
  run_with name (raise error) world = (or_error (raise error), world)
  run_with name (ok args) world = shown_result (controller.execute_tool name args world)

  unfoldable pub run_tool : ToolCall A → W → String × W
  run_tool call world = run_with call.tool_name (args_of call.arguments) world

  -- the ids with the answers, in the order of the calls
  unfoldable pub run_tools : List (ToolCall A) → W → List (Option String × String) × W
  run_tools [] world = ([], world)
  run_tools (call ∷ calls) world =
      let (answer, world) = run_tool call world in
      let (results, world) = run_tools calls world in ((call.tool_id, answer) ∷ results, world)

unfoldable pub replies : {A M : Type 0} → List (Option String × String) → List (Message A M)
replies [] = []
replies ((tool_id, answer) ∷ results) = tool tool_id answer ∷ replies results

abbrev pub Result : Type 0 → Type 0 → Type 0 → Type 0 → Type 0
Result E W A M = Outcome (Failure E) Unit × Context E W A M × W

module _ {E W A M : Type 0} where
  abbrev pub with_substates : List String → Context E W A M → Context E W A M
  with_substates substates c = record c { active_substates = substates }

  abbrev pub with_response : Response A → Context E W A M → Context E W A M
  with_response response c = record c { response = some response }

  -- after `raw_invoke`: the substates are put back, and an exception leaves the response as it was
  unfoldable pub invoked :
      List String
      → Outcome E (Response A) × W
      → Context E W A M
      → (Context E W A M → W → Result E W A M)
      → Result E W A M
  invoked original (raise error, world) c next =
      (raise (raised error), with_substates original c, world)
  invoked original (ok response, world) c next =
      next (with_substates original (with_response response c)) world

  unfoldable pub ask_with :
      Option (Client E W A M)
      → ℕ
      → List String
      → Context E W A M
      → W
      → (Context E W A M → W → Result E W A M)
      → Result E W A M
  ask_with none iteration original c world next = (raise (no_client iteration), c, world)
  ask_with (some client) iteration original c world next =
      invoked original (client.raw_invoke c.tools c.messages world) c next

  -- The messages are those with the answers of the tools. Without a client the substates are not put back.
  unfoldable pub ask_again :
      ℕ → Context E W A M → W → (Context E W A M → W → Result E W A M) → Result E W A M
  ask_again iteration c world next =
      ask_with c.client iteration c.active_substates (with_substates ("tool_result" ∷ []) c) world
        next

  unfoldable pub answered :
      ℕ
      → List (ToolCall A)
      → List (Option String × String) × W
      → Context E W A M
      → (Context E W A M → W → Result E W A M)
      → Result E W A M
  answered iteration calls (results, world) c next =
      ask_again iteration
        (record c {
          messages = c.messages ++ assistant (content_of c.response) calls ∷ replies results;
        })
        world next

  -- the body of the loop, for the calls of the response; none end the loop
  unfoldable pub iterate :
      Controller E W A
      → ℕ
      → List (ToolCall A)
      → Context E W A M
      → W
      → (Context E W A M → W → Result E W A M)
      → Result E W A M
  iterate controller iteration [] c world next = (ok tt, c, world)
  iterate controller iteration (call ∷ calls) c world next =
      answered iteration (call ∷ calls) (run_tools controller (call ∷ calls) world) c next

  -- the loop, with the rounds that are left and the number of the next one
  unfoldable pub loop : Controller E W A → ℕ → ℕ → Context E W A M → W → Result E W A M
  loop controller zero iteration c world = (ok tt, c, world)
  loop controller (suc rounds) iteration c world =
      iterate controller iteration (calls_of c.response) c world
        (loop controller rounds (iteration + 1))

  unfoldable pub with_controller : Option (Controller E W A) → Context E W A M → W → Result E W A M
  with_controller none c world = (raise no_controller, c, world)
  with_controller (some controller) c world = loop controller max_iterations 1 c world

  unfoldable pub with_tools : List String → Context E W A M → W → Result E W A M
  with_tools [] c world = (ok tt, c, world)
  with_tools (name ∷ names) c world = with_controller c.controller c world

  unfoldable pub with_calls : List (ToolCall A) → Context E W A M → W → Result E W A M
  with_calls [] c world = (ok tt, c, world)
  with_calls (call ∷ calls) c world = with_tools c.tools c world

  unfoldable pub process : Context E W A M → W → Result E W A M
  process c world = with_calls (calls_of c.response) c world
