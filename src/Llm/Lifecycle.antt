-- ===== src/Llm/Lifecycle.antt =====
-- llm/lifecycle: the processors of an LLM call, phase by phase. A processor's `process`, a user
-- callback and the wait for pending tasks are parameters: each acts on the context, and the first two
-- may raise.
pub mod Registry
pub mod Phases
pub mod Substates
mod Tests
use optorch.Base.{
  ℕ, suc, ◌+◌, Bool, true, false, not, ◌&&◌, ◌||◌, String, List, [], ◌∷◌, Option, none, some,
  Outcome, ok, raise, ltb, leb, nat_eq, if◌then◌else◌, any, elem, ◌==◌,
}

-- hooks.py
pub data LlmLifecycleHook : Type 0 where
  pre_invoke invoke tool_execution post_invoke finalize : LlmLifecycleHook

abbrev pub ordered : List LlmLifecycleHook
ordered = pre_invoke ∷ invoke ∷ tool_execution ∷ post_invoke ∷ finalize ∷ []

abbrev pub index : LlmLifecycleHook → ℕ
index pre_invoke = 0
index invoke = 1
index tool_execution = 2
index post_invoke = 3
index finalize = 4

abbrev pub same_hook : LlmLifecycleHook → LlmLifecycleHook → Bool
same_hook h k = nat_eq (index h) (index k)

-- Which `should_run` the class has: that of `BaseLLMProcessor`, or its conjunction with
-- `context.streaming` (`StreamingToolExecutor`) or `not context.streaming` (`ToolExecutor`,
-- `ToolResultCache`).
pub data Mode : Type 0 where
  always streaming_only non_streaming_only : Mode

-- base_processor.py; `name` stands for the identity of the object.
pub record Processor : Type 0 where
  pub name : String
  pub hook : LlmLifecycleHook
  pub order : ℕ
  pub mode : Mode
  pub substates : List String
  pub exclude_substates : List String

-- What the executor reads of a response; `resumable` says that it is a `StreamingLLMResponse`, and
-- `resume_set` that it has its lifecycle callback.
pub record Response : Type 0 where
  pub is_stream : Bool
  pub resumable : Bool
  pub resume_set : Bool

-- context.py, the fields that the executor reads or writes; `world` is the rest.
pub record LlmContext (W : Type 0) : Type 0 where
  pub skip_remaining : Bool
  pub streaming : Bool
  pub response : Option Response
  pub active_substates : List String
  pub user_callbacks : LlmLifecycleHook → List String
  pub current_phase : Option LlmLifecycleHook
  pub world : W

-- `active_substates & names`, as a truth value
pub intersects : List String → List String → Bool
intersects active names = any (λ s. elem s names) active

is_empty {ℓ} : {A : Type ℓ} → List A → Bool
is_empty [] = true
is_empty (x ∷ xs) = false

-- An empty or missing set excludes nothing and admits everything.
pub matches_substates : Processor → List String → Bool
unfolding is_empty
matches_substates p active =
    if not (is_empty p.exclude_substates) && intersects active p.exclude_substates
    then false
    else if is_empty p.substates
    then true
    else intersects active p.substates

module _ {W : Type 0} where
  base_should_run : Processor → LlmContext W → Bool
  base_should_run p c = if c.skip_remaining then false else matches_substates p c.active_substates

  pub should_run : Processor → LlmContext W → Bool
  unfolding base_should_run
  should_run p c = elim p.mode [
    | always ↦ base_should_run p c
    | streaming_only ↦ c.streaming && base_should_run p c
    | non_streaming_only ↦ not c.streaming && base_should_run p c
  ]

  -- The response is a stream in a streaming call: what follows the boundary is left to the callback.
  pub defers : LlmContext W → Bool
  defers c = elim c.response [ none ↦ false | some r ↦ c.streaming && r.is_stream ]

  -- `set_lifecycle_resume`, where the response is a `StreamingLLMResponse`
  pub set_resume : LlmContext W → LlmContext W
  set_resume c = elim c.response [
    | none ↦ c
    | some r ↦
        if r.resumable then record c { response = some (record r { resume_set = true }) } else c
  ]

-- Whether the loop may go on to defer after this hook, before the hooks `rest`.
pub at_boundary : LlmLifecycleHook → LlmLifecycleHook → List LlmLifecycleHook → Bool
unfolding is_empty
at_boundary boundary hook rest = same_hook hook boundary && not (is_empty rest)

-- `hooks_list[boundary_idx + 1:]`
pub hooks_after : LlmLifecycleHook → List LlmLifecycleHook → List LlmLifecycleHook
hooks_after boundary [] = []
hooks_after boundary (h ∷ hs) = if same_hook h boundary then hs else hooks_after boundary hs

-- An action on the context, which is mutated in place: what was done before a raise stays done.
abbrev pub Action : Type 0 → Type 0 → Type 0
Action W E = LlmContext W → Outcome E Unit × LlmContext W

module _ {W E : Type 0} where
  abbrev pub continue : Outcome E Unit × LlmContext W → Action W E → Outcome E Unit × LlmContext W
  continue (ok a, c) f = f c
  continue (raise e, c) f = (raise e, c)

  infixr 5 ◌then_do◌
  abbrev pub ◌then_do◌ : Action W E → Action W E → Action W E
  ◌then_do◌ m f c = continue (m c) f

  abbrev pub done : Action W E
  done c = (ok tt, c)

-- the list of a phase is one object, which exists from its first callback on
abbrev live_callbacks : List String → List String → List String
live_callbacks [] now = []
live_callbacks (f ∷ fs) now = now

module _ {W E : Type 0} (process : Processor → Action W E) (callback : String → Action W E)
    (wait_for_pending_tasks : LlmContext W → LlmContext W) where
  pub run_processor : LlmLifecycleHook → Processor → Action W E
  run_processor hook p c =
      if should_run p c then process p (record c { current_phase = some hook }) else (ok tt, c)

  pub run_processors : LlmLifecycleHook → List Processor → Action W E
  run_processors hook [] = done
  run_processors hook (p ∷ ps) = run_processor hook p then_do run_processors hook ps

  pub run_callbacks : List String → Action W E
  run_callbacks [] = done
  run_callbacks (f ∷ fs) = callback f then_do run_callbacks fs

  module _ (processors : LlmLifecycleHook → List Processor) where
    -- `_execute_hook`. Where the phase had a callback at its start, those run too that its processors add. Callbacks
    -- that add further ones to their own phase are outside the model.
    pub execute_hook : LlmLifecycleHook → Action W E
    unfolding is_empty
    execute_hook hook c =
        if is_empty (processors hook) && is_empty (c.user_callbacks hook)
        then (ok tt, c)
        else (run_processors hook (processors hook)
              then_do (λ c'. (ok tt, wait_for_pending_tasks c'))
              then_do (λ c'.
                  run_callbacks (live_callbacks (c.user_callbacks hook) (c'.user_callbacks hook))
                    c'))
            c

    pub run_hooks : List LlmLifecycleHook → Action W E
    run_hooks [] = done
    run_hooks (h ∷ hs) = execute_hook h then_do run_hooks hs

    module _ (boundary : LlmLifecycleHook) where
      -- The `for` loop of `execute`; `deferred` is `deferred_started`.
      pub execute_loop : List LlmLifecycleHook → Bool → Action W E
      execute_loop [] deferred c = (ok tt, c)
      execute_loop (hook ∷ rest) deferred c =
          let later = execute_loop rest true c in
          let run_now =
            (execute_hook hook then_do (λ c'.
                execute_loop rest (at_boundary boundary hook rest && defers c')
                  (if at_boundary boundary hook rest && defers c' then set_resume c' else c')))
              c in
          if c.skip_remaining then (ok tt, c) else if deferred then later else run_now

      pub execute : Action W E
      execute = execute_loop ordered false

      -- `_run_deferred_hooks`, which looks at `skip_remaining` no more
      pub run_deferred_hooks : Action W E
      run_deferred_hooks = run_hooks (hooks_after boundary ordered)

      -- `resume_lifecycle`: an exception is logged and goes no further.
      pub resume_lifecycle : LlmContext W → LlmContext W
      resume_lifecycle c = (run_deferred_hooks c).1
