-- ===== src/Llm/ToolResultCache/Tests.antt =====
-- `ToolResultCache.process` with one entry in the memory and two calls. The world is the clock, and a tool takes one
-- tick; the tool "echo" returns its argument.
use mathlib.Core.List.{Perm}
use optorch.Base.{◌≡◌, refl, ℕ, ◌+◌, String, [], ◌∷◌, none, some, All, ok}
use optorch.Base.Dict
use optorch.Base.Dict.{Dict}
use optorch.Llm.ToolExecutor.{ToolCall, text, parsed}
use optorch.Llm.ToolResultCache.{
  Entry, Surroundings, process, look_up, get_cached_result, get_from_memory_cache, sort_call,
  truthy, fresh, key_of, uncached, finish, executed, execute_uncached_tools, executed_replies,
  result_or_error, cache_new_results, store_result,
}
use optorch.Llm.ToolResultCache.Answers.{ids, process-answers}
use optorch.Llm.ToolResultCache.Sound.{Answers, IsSound, Produces, process-IsSound}

abbrev around : Surroundings String ℕ String
around = record {
  time = λ world. world;
  loads = λ s. some s;
  no_args = "";
  hash_tool_call = λ name args. args;
  execute = λ name args world. (ok args, world + 1);
  show = λ error. error;
}

abbrev call_a : ToolCall String
call_a = record { tool_name = some "echo"; arguments = text "a"; tool_id = some "1" }

abbrev call_b : ToolCall String
call_b = record { tool_name = some "echo"; arguments = parsed "b"; tool_id = some "2" }

abbrev memory : Dict Entry
memory = ("b", record { result = "b"; timestamp = 5 }) ∷ []

-- the second call is answered from the memory, and first
both_answered :
    (process around none 10 (call_a ∷ call_b ∷ []) memory 7).0.0 ≡ ("2", "b") ∷ ("1", "a") ∷ []
unfolding process look_up get_cached_result get_from_memory_cache sort_call truthy fresh key_of
    uncached finish executed execute_uncached_tools executed_replies result_or_error
    cache_new_results store_result Dict.get
both_answered = refl

process-answers_example :
    Perm (ids (process around none 10 (call_a ∷ call_b ∷ []) memory 7).0.0) ("1" ∷ "2" ∷ [])
process-answers_example = process-answers around none 10 (call_a ∷ call_b ∷ []) memory 7

-- a result fits its key when it is the same text
abbrev SameText : String → String → Type 0
SameText key result = result ≡ key

produces : Produces around SameText
unfolding key_of uncached result_or_error
produces call world = refl

process-IsSound_example :
    All
      (Answers around SameText (call_a ∷ call_b ∷ []))
      (process around none 10 (call_a ∷ call_b ∷ []) memory 7).0.0
    × IsSound around SameText (process around none 10 (call_a ∷ call_b ∷ []) memory 7).1
process-IsSound_example =
    process-IsSound around SameText 10 (call_a ∷ call_b ∷ []) memory 7 produces (refl, tt)
