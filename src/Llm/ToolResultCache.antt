-- ===== src/Llm/ToolResultCache.antt =====
-- `ToolResultCache.process` of llm/processors/tool_result_cache.py: the results of tools by the hash of the call,
-- in the cache manager of the container or in the processor's own memory. The tools, json and the hash
-- are parameters; events are left out. Times are ticks of the clock that `time.time()` reads.
pub mod Answers
pub mod Sound
mod Tests
use optorch.Base.{
  ℕ, ◌+◌, ◌-◌, String, List, [], ◌∷◌, ◌++◌, Option, none, some, Bool, true, false, Outcome, ok,
  raise, ltb, if◌then◌else◌, ◌==◌,
}
use optorch.Base.Dict
use optorch.Base.Dict.{Dict}
use optorch.Base.Texts.{◌<>◌}
use optorch.Llm.ToolExecutor.{Arguments, text, parsed, ToolCall}

pub record Entry : Type 0 where
  pub result : String
  pub timestamp : ℕ

pub record CacheManager (E W : Type 0) : Type 0 where
  pub get : String → W → Outcome E (Option Entry) × W
  pub set : String → Entry → W → Outcome E Unit × W
  pub delete : String → W → Outcome E Unit × W

pub record Surroundings (E W A : Type 0) : Type 0 where
  pub time : W → ℕ
  -- `json.loads`, `none` where it raises, and the empty dict
  pub loads : String → Option A
  pub no_args : A
  pub hash_tool_call : String → A → String
  -- the tool's result as a text
  pub execute : String → A → W → Outcome E String × W
  pub show : E → String

pub record Uncached (A : Type 0) : Type 0 where
  pub call : ToolCall A
  pub cache_key : String
  pub call_name : String
  pub args : A

abbrev pub name_of : Option String → String
name_of none = "unknown"
name_of (some name) = name

abbrev pub or_empty : {A : Type 0} → A → Option A → A
or_empty default none = default
or_empty default (some args) = args

-- the default of a dict without the key "id"; a call that is an object has an id here
abbrev pub id_of : {A : Type 0} → ToolCall A → String
id_of call = name_of call.tool_id

-- an empty text counts as no result
unfoldable pub truthy : Option String → Option String
truthy none = none
truthy (some s) = if s == "" then none else some s

unfoldable pub fresh : ℕ → ℕ → Entry → Bool
fresh ttl now entry = ltb (now - entry.timestamp) ttl

unfoldable pub get_from_memory_cache : ℕ → ℕ → String → Dict Entry → Option String × Dict Entry
get_from_memory_cache ttl now key memory = elim (Dict.get key memory) [
  | none ↦ (none, memory)
  | some entry ↦
      if fresh ttl now entry then (some entry.result, memory) else (none, Dict.erase key memory)
]

-- the ids and the texts of the messages for tools
abbrev pub Replies : Type 0
Replies = List (String × String)

module _ {E W A : Type 0} (around : Surroundings E W A) where
  abbrev pub args_of : Arguments A → A
  args_of (text s) = or_empty around.no_args (around.loads s)
  args_of (parsed args) = args

  unfoldable pub key_of : ToolCall A → String
  key_of call = around.hash_tool_call (name_of call.tool_name) (args_of call.arguments)

  unfoldable pub uncached : ToolCall A → Uncached A
  uncached call = record {
    call = call;
    cache_key = key_of call;
    call_name = name_of call.tool_name;
    args = args_of call.arguments;
  }

  -- a stale entry is deleted, whatever comes of it
  unfoldable pub got_from_manager :
      CacheManager E W → ℕ → String → Outcome E (Option Entry) × W → Option String × W
  got_from_manager cache ttl key (raise error, world) = (none, world)
  got_from_manager cache ttl key (ok none, world) = (none, world)
  got_from_manager cache ttl key (ok (some entry), world) =
      if fresh ttl (around.time world) entry
      then (some entry.result, world)
      else (none, (cache.delete key world).1)

  unfoldable pub get_cached_result :
      Option (CacheManager E W) → ℕ → String → Dict Entry → W → Option String × Dict Entry × W
  get_cached_result none ttl key memory world =
      let (result, memory) = get_from_memory_cache ttl (around.time world) key memory in
      (result, memory, world)
  get_cached_result (some cache) ttl key memory world =
      let (result, world) =
        got_from_manager cache ttl ("tool:" <> key) (cache.get ("tool:" <> key) world) in
      (result, memory, world)

  -- the messages from the cache, and the calls that are not cached
  abbrev pub Found : Type 0
  Found = (Replies × List (Uncached A)) × Dict Entry × W

  unfoldable pub sort_call : ToolCall A → Option String → Found → Found
  sort_call call (some content) ((cached, others), memory, world) =
      (((id_of call, content) ∷ cached, others), memory, world)
  sort_call call none ((cached, others), memory, world) =
      ((cached, uncached call ∷ others), memory, world)

  unfoldable pub look_up :
      Option (CacheManager E W) → ℕ → List (ToolCall A) → Dict Entry → W → Found
  look_up cache ttl [] memory world = (([], []), memory, world)
  look_up cache ttl (call ∷ calls) memory world =
      let (result, memory, world) = get_cached_result cache ttl (key_of call) memory world in
      sort_call call (truthy result) (look_up cache ttl calls memory world)

  unfoldable pub result_or_error : Outcome E String → String
  result_or_error (ok result) = result
  result_or_error (raise error) = "Error: " <> around.show error

  unfoldable pub execute_uncached_tools : List (Uncached A) → W → List (Uncached A × String) × W
  execute_uncached_tools [] world = ([], world)
  execute_uncached_tools (u ∷ us) world =
      let (answer, world) = around.execute u.call_name u.args world in
      let (results, world) = execute_uncached_tools us world in
      ((u, result_or_error answer) ∷ results, world)

  unfoldable pub executed_replies : List (Uncached A × String) → Replies
  executed_replies [] = []
  executed_replies ((u, result) ∷ results) = (id_of u.call, result) ∷ executed_replies results

  -- where the cache manager raises, the entry goes to the memory
  unfoldable pub stored : Outcome E Unit × W → String → Entry → Dict Entry → Dict Entry × W
  stored (ok done, world) key entry memory = (memory, world)
  stored (raise error, world) key entry memory = (Dict.insert key entry memory, world)

  unfoldable pub store_result :
      Option (CacheManager E W) → String → String → Dict Entry → W → Dict Entry × W
  store_result none key result memory world =
      (Dict.insert key (record { result = result; timestamp = around.time world }) memory, world)
  store_result (some cache) key result memory world =
      let entry : Entry = record { result = result; timestamp = around.time world } in
      stored (cache.set ("tool:" <> key) entry world) key entry memory

  unfoldable pub cache_new_results :
      Option (CacheManager E W) → List (Uncached A × String) → Dict Entry → W → Dict Entry × W
  cache_new_results cache [] memory world = (memory, world)
  cache_new_results cache ((u, result) ∷ results) memory world =
      let (memory, world) =
        if result == ""
        then (memory, world)
        else store_result cache u.cache_key result memory world in
      cache_new_results cache results memory world

  -- what `process` leaves: the messages that it appended, the flag `all_tools_cached`, the memory and the world
  abbrev pub Processed : Type 0
  Processed = (Replies × Bool) × Dict Entry × W

  unfoldable pub executed :
      Option (CacheManager E W) → Replies → List (Uncached A × String) × W → Dict Entry → Processed
  executed cache cached (results, world) memory =
      let (memory, world) = cache_new_results cache results memory world in
      ((cached ++ executed_replies results, false), memory, world)

  unfoldable pub finish : Option (CacheManager E W) → Found → Processed
  finish cache ((cached, []), memory, world) = ((cached, true), memory, world)
  finish cache ((cached, u ∷ us), memory, world) =
      executed cache cached (execute_uncached_tools (u ∷ us) world) memory

  unfoldable pub process :
      Option (CacheManager E W) → ℕ → List (ToolCall A) → Dict Entry → W → Processed
  process cache ttl [] memory world = (([], false), memory, world)
  process cache ttl (call ∷ calls) memory world =
      finish cache (look_up cache ttl (call ∷ calls) memory world)
