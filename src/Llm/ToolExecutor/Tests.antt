-- ===== src/Llm/ToolExecutor/Tests.antt =====
-- `ToolExecutor.process` with a model that asks for a tool in every response. The world counts the requests
-- to the model.
use optorch.Base.{◌≡◌, ◌⊎◌, refl, ℕ, ◌+◌, String, [], ◌∷◌, none, some, ok, raise, arith}
use optorch.Llm.ToolExecutor.{
  ToolCall, text, Response, other, Client, Controller, Context, process, with_calls, with_tools,
  with_controller, loop, iterate, answered, ask_again, ask_with, invoked, run_tools, run_tool,
  run_with, shown_result, result_str, replies, no_client, max_iterations,
}
use optorch.Llm.ToolExecutor.Rounds.{IsRun, process-IsRun}
use optorch.Llm.ToolExecutor.Substates.{process-active_substates}

abbrev call : ToolCall String
call = record { tool_name = some "search"; arguments = text "{}"; tool_id = some "1" }

abbrev response : Response String
response = record { content = ""; tool_calls = call ∷ [] }

abbrev controller : Controller String ℕ String
controller = record {
  loads = λ s. ok s;
  execute_tool = λ name args world. (ok (other "found"), world);
  show = λ error. error;
}

abbrev client : Client String ℕ String Unit
client = record { raw_invoke = λ tools messages world. (ok response, world + 1) }

abbrev context : Context String ℕ String Unit
context = record {
  response = some response;
  messages = [];
  active_substates = "default" ∷ [];
  client = some client;
  controller = some controller;
  tools = "search" ∷ [];
}

asks_ten_times : (process context 0).2 ≡ 10
unfolding process with_calls with_tools with_controller loop iterate answered ask_again ask_with
    invoked run_tools run_tool run_with shown_result result_str replies
asks_ten_times = refl

process-IsRun_example :
    IsRun controller (some client) ("search" ∷ []) max_iterations 1 context 0 (process context 0)
process-IsRun_example =
    process-IsRun context 0 controller (λ none_left. ground (arith, none_left)) refl

process-active_substates_example :
    ((process (record context { client = none }) 0).1.active_substates ≡ "default" ∷ [])
    ⊎ (((record context { client = none }).client ≡ none)
        × ((process (record context { client = none }) 0).1.active_substates ≡ "tool_result" ∷ [])
        × ((iteration : ℕ) × ((process (record context { client = none }) 0).0
              ≡ raise (no_client iteration))))
process-active_substates_example = process-active_substates (record context { client = none }) 0
