-- ===== src/Llm/ToolResultCache/Answers.antt =====
-- Each call of a response is answered.
use mathlib.Core.List.{Perm, perm_middle, append-nil, map-append}
use mathlib.Core.List.Perm
use optorch.Base.{
  ◌≡◌, refl, sym, ap, subst, ◌∙◌, ℕ, String, List, [], ◌∷◌, ◌++◌, map, Option, none, some,
}
use optorch.Base.Dict.{Dict}
use optorch.Llm.ToolExecutor.{ToolCall}
use optorch.Llm.ToolResultCache.{
  CacheManager, Surroundings, Uncached, Entry, Replies, id_of, uncached, key_of, Found,
  get_cached_result, sort_call, look_up, execute_uncached_tools, executed_replies, executed, finish,
  process, truthy,
}

abbrev pub ids : Replies → List String
ids replies = map (λ r. r.0) replies

abbrev pub call_ids : {A : Type 0} → List (ToolCall A) → List String
call_ids calls = map (λ call. id_of call) calls

module _ {E W A : Type 0} (around : Surroundings E W A) where
  abbrev uncached_ids : List (Uncached A) → List String
  uncached_ids us = map (λ (u : Uncached A). id_of u.call) us

  -- the ids of the cached and of the other calls are those of all calls
  abbrev Covers : List (ToolCall A) → Found around → Type 0
  Covers calls ((cached, others), memory, world) =
      Perm (ids cached ++ uncached_ids others) (call_ids calls)

  sort_call-Covers :
      (call : ToolCall A) (calls : List (ToolCall A)) (o : Option String) (found : Found around)
      → Covers calls found
      → Covers (call ∷ calls) (sort_call around call o found)
  unfolding sort_call uncached
  sort_call-Covers call calls (some content) ((cached, others), memory, world) h =
      Perm.cons (id_of call) h
  sort_call-Covers call calls none ((cached, others), memory, world) h =
      Perm.trans (perm_middle (ids cached) (uncached_ids others)) (Perm.cons (id_of call) h)

  look_up-Covers :
      (cache : Option (CacheManager E W)) (ttl : ℕ) (calls : List (ToolCall A))
      (memory : Dict Entry) (world : W)
      → Covers calls (look_up around cache ttl calls memory world)
  unfolding look_up
  look_up-Covers cache ttl [] memory world = Perm.refl []
  look_up-Covers cache ttl (call ∷ calls) memory world =
      let (result, memory, world) =
        get_cached_result around cache ttl (key_of around call) memory world in
      sort_call-Covers call calls (truthy result) (look_up around cache ttl calls memory world)
        (look_up-Covers cache ttl calls memory world)

  ids-execute_uncached_tools :
      (us : List (Uncached A)) (world : W)
      → ids (executed_replies around (execute_uncached_tools around us world).0) ≡ uncached_ids us
  unfolding execute_uncached_tools executed_replies
  ids-execute_uncached_tools [] world = refl
  ids-execute_uncached_tools (u ∷ us) world =
      ap (λ l. id_of u.call ∷ l)
        (ids-execute_uncached_tools us (around.execute u.call_name u.args world).1)

  finish-Covers :
      (cache : Option (CacheManager E W)) (calls : List (ToolCall A)) (found : Found around)
      → Covers calls found
      → Perm (ids (finish around cache found).0.0) (call_ids calls)
  unfolding finish executed
  finish-Covers cache calls ((cached, []), memory, world) h =
      subst (λ l. Perm l (call_ids calls)) (append-nil (ids cached)) h
  finish-Covers cache calls ((cached, u ∷ us), memory, world) h =
      subst (λ l. Perm l (call_ids calls))
        (sym (
          map-append (λ r. r.0) cached
            (executed_replies around (execute_uncached_tools around (u ∷ us) world).0)
          ∙ ap (λ l. ids cached ++ l) (ids-execute_uncached_tools (u ∷ us) world)))
        h

-- Whatever is in the cache, and whether the tools and the cache manager raise or not, `process` appends one
-- answer to each call of the response: the ids of the answers are those of the calls, although not in
-- their order.
pub process-answers :
    {E W A : Type 0} (around : Surroundings E W A) (cache : Option (CacheManager E W)) (ttl : ℕ)
    (calls : List (ToolCall A)) (memory : Dict Entry) (world : W)
    → Perm (ids (process around cache ttl calls memory world).0.0) (call_ids calls)
unfolding process
process-answers around cache ttl [] memory world = Perm.refl []
process-answers around cache ttl (call ∷ calls) memory world =
    finish-Covers around cache (call ∷ calls) (look_up around cache ttl (call ∷ calls) memory world)
      (look_up-Covers around cache ttl (call ∷ calls) memory world)
