-- ===== src/Llm/Lifecycle/Phases.antt =====
-- The order of the phases, with and without streaming.
use optorch.Base.{
  ◌≡◌, refl, Bool, true, false, ◌&&◌, String, List, [], ◌∷◌, Outcome, ok, raise, if◌then◌else◌,
  arith, ap,
}
use optorch.Llm.Lifecycle.{
  LlmLifecycleHook, pre_invoke, invoke, tool_execution, post_invoke, finalize, Processor,
  LlmContext, Action, continue, ◌then_do◌, done, should_run, run_processor, run_processors,
  execute_hook, defers, set_resume, at_boundary, execute_loop, execute, hooks_after, run_hooks,
  run_deferred_hooks, resume_lifecycle,
}

module _ {W E : Type 0} where
  -- Two continuations that agree where the first action ends give the same result.
  continue_cong :
      (r : Outcome E Unit × LlmContext W) (f g : Action W E)
      → ((c : LlmContext W) → r ≡ (ok tt, c) → f c ≡ g c)
      → continue r f ≡ continue r g
  continue_cong (ok a, c) f g same = same c refl
  continue_cong (raise e, c) f g same = refl

  continue-done : (r : Outcome E Unit × LlmContext W) → continue r done ≡ r
  continue-done (ok a, c) = refl
  continue-done (raise e, c) = refl

module _ {W E : Type 0} (process : Processor → Action W E) (callback : String → Action W E)
    (wait : LlmContext W → LlmContext W) (processors : LlmLifecycleHook → List Processor) where
  -- No phase asks to skip the remaining ones.
  abbrev pub NeverSkips : Type 0
  NeverSkips =
      (h : LlmLifecycleHook) (c c' : LlmContext W)
      → c.skip_remaining ≡ false
      → execute_hook process callback wait processors h c ≡ (ok tt, c')
      → c'.skip_remaining ≡ false

  run_processors_skipped :
      (h : LlmLifecycleHook) (ps : List Processor) (c : LlmContext W)
      → c.skip_remaining ≡ true
      → run_processors process callback wait h ps c ≡ (ok tt, c)
  unfolding run_processors run_processor should_run
  run_processors_skipped h [] c skip = refl
  run_processors_skipped h (p ∷ ps) c skip = ground (arith, run_processors_skipped h ps c skip)

  module _ (boundary : LlmLifecycleHook) where
    execute_loop_skipped :
        (hs : List LlmLifecycleHook) (deferred : Bool) (c : LlmContext W)
        → c.skip_remaining ≡ true
        → execute_loop process callback wait processors boundary hs deferred c ≡ (ok tt, c)
    unfolding execute_loop
    execute_loop_skipped [] deferred c skip = refl
    execute_loop_skipped (h ∷ hs) deferred c skip = ground arith

    execute_loop_deferred :
        (hs : List LlmLifecycleHook) (c : LlmContext W)
        → execute_loop process callback wait processors boundary hs true c ≡ (ok tt, c)
    unfolding execute_loop
    execute_loop_deferred [] c = refl
    execute_loop_deferred (h ∷ hs) c = ground (arith, execute_loop_deferred hs c)

    execute_loop_step :
        (h : LlmLifecycleHook) (hs : List LlmLifecycleHook) (K : Action W E) (c : LlmContext W)
        → NeverSkips
        → c.skip_remaining ≡ false
        → ((c' : LlmContext W)
            → c'.skip_remaining ≡ false
            → execute_loop process callback wait processors boundary hs
                (at_boundary boundary h hs && defers c')
                (if at_boundary boundary h hs && defers c' then set_resume c' else c')
              ≡ K c')
        → execute_loop process callback wait processors boundary (h ∷ hs) false c
          ≡ continue (execute_hook process callback wait processors h c) K
    unfolding execute_loop
    execute_loop_step h hs K c never runs same = simp runs (
        continue_cong (execute_hook process callback wait processors h c) _ K
          (λ c' e. same c' (never h c c' runs e)))

    execute_loop_plain :
        (h : LlmLifecycleHook) (hs : List LlmLifecycleHook) (K : Action W E) (c : LlmContext W)
        → NeverSkips
        → at_boundary boundary h hs ≡ false
        → c.skip_remaining ≡ false
        → ((c' : LlmContext W)
            → c'.skip_remaining ≡ false
            → execute_loop process callback wait processors boundary hs false c' ≡ K c')
        → execute_loop process callback wait processors boundary (h ∷ hs) false c
          ≡ continue (execute_hook process callback wait processors h c) K
    execute_loop_plain h hs K c never inside runs same =
        execute_loop_step h hs K c never runs (λ c' runs'. rw inside (same c' runs'))

  -- What is left of a call after `post_invoke`: a stream is handed its callback, and anything else is
  -- finalised at once.
  abbrev pub finish : Action W E
  finish c =
      if defers c
      then (ok tt, set_resume c)
      else execute_hook process callback wait processors finalize c

  execute_loop_last :
      (c : LlmContext W)
      → c.skip_remaining ≡ false
      → execute_loop process callback wait processors post_invoke (finalize ∷ []) false c
        ≡ execute_hook process callback wait processors finalize c
  unfolding execute_loop at_boundary
  execute_loop_last c runs =
      simp runs (continue-done (execute_hook process callback wait processors finalize c))

  execute_loop_boundary :
      (c : LlmContext W)
      → NeverSkips
      → c.skip_remaining ≡ false
      → execute_loop process callback wait processors post_invoke
          (post_invoke ∷ finalize ∷ [])
          false
          c
        ≡ (execute_hook process callback wait processors post_invoke then_do finish) c
  unfolding at_boundary
  execute_loop_boundary c never runs =
      execute_loop_step post_invoke post_invoke (finalize ∷ []) finish c never runs λ c' runs'.
        elim (defers c')
          as (λ b.
            execute_loop process callback wait processors post_invoke (finalize ∷ []) b
              (if b then set_resume c' else c')
            ≡ (if b
                then (ok tt, set_resume c')
                else execute_hook process callback wait processors finalize c')) [
                  | true ↦ execute_loop_deferred post_invoke (finalize ∷ []) (set_resume c')
                  | false ↦ execute_loop_last c' runs'
                ]

  -- The phases run in the order of `LLMLifecycleHook.ordered()`, each once, as long as none asks to
  -- skip the rest: the first four always, and `finalize` unless a stream defers it. An exception of
  -- any phase ends the call there.
  pub execute-eq-phases :
      (c : LlmContext W)
      → NeverSkips
      → c.skip_remaining ≡ false
      → execute process callback wait processors post_invoke c
        ≡ (execute_hook process callback wait processors pre_invoke
              then_do execute_hook process callback wait processors invoke
              then_do execute_hook process callback wait processors tool_execution
              then_do execute_hook process callback wait processors post_invoke
              then_do finish)
            c
  unfolding execute at_boundary
  execute-eq-phases c never runs =
      execute_loop_plain post_invoke pre_invoke _ _ c never refl runs λ c₁ r₁.
        execute_loop_plain post_invoke invoke _ _ c₁ never refl r₁ λ c₂ r₂.
          execute_loop_plain post_invoke tool_execution _ _ c₂ never refl r₂
            λ c₃ r₃. execute_loop_boundary c₃ never r₃

  -- What the callback of a stream runs is the phase that was deferred, and no exception of it gets
  -- out of the callback.
  pub resume_lifecycle-eq-finalize :
      (c : LlmContext W)
      → resume_lifecycle process callback wait processors post_invoke c
        ≡ (execute_hook process callback wait processors finalize c).1
  unfolding resume_lifecycle run_deferred_hooks run_hooks hooks_after
  resume_lifecycle-eq-finalize c =
      ap (λ (r : Outcome E Unit × LlmContext W). r.1)
        (continue-done (execute_hook process callback wait processors finalize c))

  -- Once a context asks to skip the remaining phases, the loop ends and no processor runs any more.
  pub skip_remaining_stops :
      (boundary h : LlmLifecycleHook) (hs : List LlmLifecycleHook) (deferred : Bool)
      (ps : List Processor) (c : LlmContext W)
      → c.skip_remaining ≡ true
      → (execute_loop process callback wait processors boundary hs deferred c ≡ (ok tt, c))
        × (run_processors process callback wait h ps c ≡ (ok tt, c))
  skip_remaining_stops boundary h hs deferred ps c skip =
      (execute_loop_skipped boundary hs deferred c skip, run_processors_skipped h ps c skip)
