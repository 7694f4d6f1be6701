-- ===== src/Llm/ToolResultCache/Sound.antt =====
-- An answer from the memory was once the result of a call with the same key.
use mathlib.Core.Option.{some-injective}
use optorch.Base.{
  ◌≡◌, refl, sym, ap, subst, ℕ, String, List, [], ◌∷◌, Option, none, some, Bool, true, false,
  if◌then◌else◌, if_both, ◌==◌, All, In, inl, inr, All-append, eq_iff, arith,
}
use optorch.Base.Dict
use optorch.Base.Dict.{Dict}
use optorch.Llm.ToolExecutor.{ToolCall}
use optorch.Llm.ToolResultCache.{
  Surroundings, Uncached, Entry, id_of, uncached, key_of, Found, get_cached_result,
  get_from_memory_cache, fresh, sort_call, look_up, execute_uncached_tools, executed_replies,
  result_or_error, executed, finish, process, truthy, store_result, cache_new_results,
}

All-weaken :
    {A : Type 0} {Q R : A → Type 0} (xs : List A) → ((x : A) → Q x → R x) → All Q xs → All R xs
All-weaken [] f h = tt
All-weaken (x ∷ xs) f h = (f x h.0, All-weaken xs f h.1)

module _ {E W A : Type 0} (around : Surroundings E W A) (P : String → String → Type 0) where
  -- every entry of the memory fits its key
  abbrev pub IsSound : Dict Entry → Type 0
  IsSound memory = All (λ entry. P entry.0 entry.1.result) memory

  -- the answer has the id of one of the calls, and fits its key
  abbrev pub Answers : List (ToolCall A) → String × String → Type 0
  Answers calls reply =
      (call : ToolCall A) × In call calls × (reply.0 ≡ id_of call) × P (key_of around call) reply.1

  abbrev Comes : List (ToolCall A) → Uncached A → Type 0
  Comes calls u = (call : ToolCall A) × In call calls × (u ≡ uncached around call)

  IsSound-get :
      (key : String) (memory : Dict Entry) (entry : Entry)
      → IsSound memory
      → Dict.get key memory ≡ some entry
      → P key entry.result
  unfolding Dict.get
  IsSound-get key [] entry h e = ground (arith, e)
  IsSound-get key ((j, other) ∷ memory) entry h e =
      go (j == key) refl e (IsSound-get key memory entry h.1)
    where
      go :
          (b : Bool)
          → (j == key) ≡ b
          → (if b then some other else Dict.get key memory) ≡ some entry
          → (Dict.get key memory ≡ some entry → P key entry.result)
          → P key entry.result
      go true same e rest =
          subst (λ (x : Entry). P key x.result) (some-injective other entry e)
            (subst (λ k. P k other.result) ((eq_iff j key).0 same) h.0)
      go false differs e rest = rest e

  insert-IsSound :
      (key : String) (entry : Entry) (memory : Dict Entry)
      → P key entry.result
      → IsSound memory
      → IsSound (Dict.insert key entry memory)
  unfolding Dict.insert
  insert-IsSound key entry [] p h = (p, tt)
  insert-IsSound key entry ((j, other) ∷ memory) p h =
      if_both IsSound (j == key) _ _
        (λ same. (subst (λ k. P k entry.result) (sym ((eq_iff j key).0 same)) p, h.1))
        (λ _. (h.0, insert-IsSound key entry memory p h.1))

  erase-IsSound :
      (key : String) (memory : Dict Entry) → IsSound memory → IsSound (Dict.erase key memory)
  unfolding Dict.erase
  erase-IsSound key [] h = tt
  erase-IsSound key ((j, other) ∷ memory) h =
      if_both IsSound (j == key) _ _ (λ _. erase-IsSound key memory h.1)
        (λ _. (h.0, erase-IsSound key memory h.1))

  -- what was looked up fits the key
  abbrev Fits : String → Option String → Type 0
  Fits key none = Unit
  Fits key (some content) = P key content

  truthy-Fits : (key : String) (o : Option String) → Fits key o → Fits key (truthy o)
  unfolding truthy
  truthy-Fits key none h = tt
  truthy-Fits key (some content) h = if_both (Fits key) (content == "") _ _ (λ _. tt) (λ _. h)

  get_from_memory_cache-IsSound :
      (ttl now : ℕ) (key : String) (memory : Dict Entry)
      → IsSound memory
      → Fits key (get_from_memory_cache ttl now key memory).0
        × IsSound (get_from_memory_cache ttl now key memory).1
  unfolding get_from_memory_cache
  get_from_memory_cache-IsSound ttl now key memory h = go (Dict.get key memory) refl
    where
      go :
          (o : Option Entry)
          → Dict.get key memory ≡ o
          → let r : Option String × Dict Entry = elim o [
            | none ↦ (none, memory)
            | some entry ↦
                if fresh ttl now entry
                then (some entry.result, memory)
                else (none, Dict.erase key memory)
          ] in
            Fits key r.0 × IsSound r.1
      go none e = (tt, h)
      go (some entry) e =
          if_both (λ (r : Option String × Dict Entry). Fits key r.0 × IsSound r.1)
            (fresh ttl now entry) _ _ (λ _. (IsSound-get key memory entry h e, h))
            (λ _. (tt, erase-IsSound key memory h))

  abbrev LookedUp : List (ToolCall A) → Found around → Type 0
  LookedUp calls ((cached, others), memory, world) =
      All (Answers calls) cached × All (Comes calls) others × IsSound memory

  sort_call-LookedUp :
      (call : ToolCall A) (calls : List (ToolCall A)) (o : Option String) (found : Found around)
      → Fits (key_of around call) o
      → LookedUp calls found
      → LookedUp (call ∷ calls) (sort_call around call o found)
  unfolding sort_call
  sort_call-LookedUp call calls o ((cached, others), memory, world) fits (c, u, sound) = go o fits
    where
      more : All (Answers (call ∷ calls)) cached
      more = All-weaken cached (λ reply (other, there, rest, fit). (other, inr there, rest, fit)) c

      also : All (Comes (call ∷ calls)) others
      also = All-weaken others (λ u (other, there, rest). (other, inr there, rest)) u

      go :
          (o : Option String)
          → Fits (key_of around call) o
          → LookedUp (call ∷ calls) (sort_call around call o ((cached, others), memory, world))
      go none f = (more, ((call, inl refl, refl), also), sound)
      go (some content) f = (((call, inl refl, refl, f), more), also, sound)

  look_up-LookedUp :
      (ttl : ℕ) (calls : List (ToolCall A)) (memory : Dict Entry) (world : W)
      → IsSound memory
      → LookedUp calls (look_up around none ttl calls memory world)
  unfolding look_up get_cached_result
  look_up-LookedUp ttl [] memory world h = (tt, tt, h)
  look_up-LookedUp ttl (call ∷ calls) memory world h =
      let key = key_of around call in
      let r = get_from_memory_cache ttl (around.time world) key memory in
      let (fits, sound) = get_from_memory_cache-IsSound ttl (around.time world) key memory h in
      sort_call-LookedUp call calls (truthy r.0) (look_up around none ttl calls r.1 world)
        (truthy-Fits key r.0 fits) (look_up-LookedUp ttl calls r.1 world sound)

  -- what the tools do fits the keys of their calls
  abbrev pub Produces : Type 0
  Produces =
      (call : ToolCall A) (world : W)
      → P (key_of around call) (
          result_or_error around
            (around.execute (uncached around call).call_name (uncached around call).args world).0)

  abbrev Executed : List (ToolCall A) → Uncached A × String → Type 0
  Executed calls (u, result) = Comes calls u × P u.cache_key result

  execute-Executed :
      (calls : List (ToolCall A)) (us : List (Uncached A)) (world : W)
      → Produces
      → All (Comes calls) us
      → All (Executed calls) (execute_uncached_tools around us world).0
  unfolding execute_uncached_tools uncached
  execute-Executed calls [] world produces h = tt
  execute-Executed calls (u ∷ us) world produces ((call, there, e), rest) = (
    (
      (call, there, e),
      subst
          (λ (v : Uncached A).
            P v.cache_key (result_or_error around (around.execute v.call_name v.args world).0))
          (sym e) (produces call world),
    ),
    execute-Executed calls us (around.execute u.call_name u.args world).1 produces rest,
  )

  executed_replies-Answers :
      (calls : List (ToolCall A)) (results : List (Uncached A × String))
      → All (Executed calls) results
      → All (Answers calls) (executed_replies around results)
  unfolding executed_replies uncached
  executed_replies-Answers calls [] h = tt
  executed_replies-Answers calls ((u, result) ∷ results) (((call, there, e), fits), rest) = (
    (
      call,
      there,
      ap (λ (v : Uncached A). id_of v.call) e,
      subst (λ (v : Uncached A). P v.cache_key result) e fits,
    ),
    executed_replies-Answers calls results rest,
  )

  cache_new_results-IsSound :
      (calls : List (ToolCall A)) (results : List (Uncached A × String)) (memory : Dict Entry)
      (world : W)
      → All (Executed calls) results
      → IsSound memory
      → IsSound (cache_new_results around none results memory world).0
  unfolding cache_new_results store_result
  cache_new_results-IsSound calls [] memory world h sound = sound
  cache_new_results-IsSound calls ((u, result) ∷ results) memory world (first, rest) sound =
      if_both (λ (r : Dict Entry × W). IsSound (cache_new_results around none results r.0 r.1).0)
        (result == "") _ _ (λ _. cache_new_results-IsSound calls results memory world rest sound)
        (λ _.
          cache_new_results-IsSound calls results _ world rest
            (insert-IsSound u.cache_key _ memory first.1 sound))

  finish-IsSound :
      (calls : List (ToolCall A)) (found : Found around)
      → Produces
      → LookedUp calls found
      → All (Answers calls) (finish around none found).0.0 × IsSound (finish around none found).1
  unfolding finish executed
  finish-IsSound calls ((cached, []), memory, world) produces (c, u, sound) = (c, sound)
  finish-IsSound calls ((cached, u ∷ us), memory, world) produces (c, come, sound) =
      let r = execute_uncached_tools around (u ∷ us) world in
      let done = execute-Executed calls (u ∷ us) world produces come in
      (
        All-append cached (executed_replies around r.0) (Answers calls)
            (c, executed_replies-Answers calls r.0 done),
        cache_new_results-IsSound calls r.0 memory r.1 done sound,
      )

-- If every result of a tool fits the key of its call, in whatever sense, and so does every entry of the memory,
-- then every answer that `process` appends has the id of a call of the response and fits the key of this
-- call, and again every entry of the memory fits its key: the cache (the processor's own memory) never
-- answers a call with what belongs to another key.
pub process-IsSound :
    {E W A : Type 0} (around : Surroundings E W A) (P : String → String → Type 0) (ttl : ℕ)
    (calls : List (ToolCall A)) (memory : Dict Entry) (world : W)
    → Produces around P
    → IsSound around P memory
    → All (Answers around P calls) (process around none ttl calls memory world).0.0
      × IsSound around P (process around none ttl calls memory world).1
unfolding process
process-IsSound around P ttl [] memory world produces sound = (tt, sound)
process-IsSound around P ttl (call ∷ calls) memory world produces sound =
    finish-IsSound around P (call ∷ calls) (look_up around none ttl (call ∷ calls) memory world)
      produces (look_up-LookedUp around P ttl (call ∷ calls) memory world sound)
