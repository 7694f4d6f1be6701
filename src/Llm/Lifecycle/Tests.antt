-- ===== src/Llm/Lifecycle/Tests.antt =====
-- A call with four processors that log their names, in a world that is the log.
use optorch.Base.{
  ℕ, ◌≡◌, refl, true, false, String, List, [], ◌∷◌, ◌++◌, none, some, ok, any, elem, arith,
}
use optorch.Llm.Lifecycle.{
  LlmLifecycleHook, pre_invoke, invoke, tool_execution, post_invoke, finalize, Processor, always,
  non_streaming_only, LlmContext, Action, ◌then_do◌, should_run, run_processor, run_processors,
  run_callbacks, execute_hook, defers, set_resume, at_boundary, execute_loop, execute, hooks_after,
  run_hooks, run_deferred_hooks, resume_lifecycle, matches_substates, intersects, is_empty,
}
use optorch.Llm.Lifecycle.Phases.{NeverSkips, finish, execute-eq-phases}
use optorch.Llm.Lifecycle.Registry.{register_processor, sort_by_order, registered}

abbrev processor : String → LlmLifecycleHook → ℕ → Processor
processor name hook order = record {
  name = name;
  hook = hook;
  order = order;
  mode = always;
  substates = [];
  exclude_substates = [];
}

abbrev table : LlmLifecycleHook → List Processor
table pre_invoke = processor "prompt" pre_invoke 100 ∷ []
table invoke = processor "invoke" invoke 100 ∷ []
table tool_execution =
    record (processor "tools" tool_execution 100) { mode = non_streaming_only } ∷ []
table post_invoke = []
table finalize = processor "cost" finalize 100 ∷ []

abbrev note : Processor → Action (List String) String
note p c = (ok tt, record c { world = c.world ++ p.name ∷ [] })

abbrev call_back : String → Action (List String) String
call_back name c = (ok tt, record c { world = c.world ++ name ∷ [] })

abbrev wait : LlmContext (List String) → LlmContext (List String)
wait c = c

abbrev plain : LlmContext (List String)
plain = record {
  skip_remaining = false;
  streaming = false;
  response = none;
  active_substates = "default" ∷ [];
  user_callbacks = λ h. [];
  current_phase = none;
  world = [];
}

abbrev stream : LlmContext (List String)
stream = record plain {
  streaming = true;
  response = some (record { is_stream = true; resumable = true; resume_set = false });
}

program : Unit {0}
unfolding execute execute_loop execute_hook run_processors run_processor run_callbacks should_run
    matches_substates intersects any elem defers set_resume at_boundary hooks_after run_hooks
    run_deferred_hooks resume_lifecycle register_processor sort_by_order registered
program = tt

plain_call :
    (execute note call_back wait table post_invoke plain).1.world
    ≡ "prompt" ∷ "invoke" ∷ "tools" ∷ "cost" ∷ []
unfolding program
plain_call = refl

-- In a stream the tools are left to another processor, and the costs to the end of the stream.
stream_call :
    (execute note call_back wait table post_invoke stream).1.world ≡ "prompt" ∷ "invoke" ∷ []
unfolding program
stream_call = refl

stream_resumed :
    (resume_lifecycle note call_back wait table post_invoke
      (execute note call_back wait table post_invoke stream).1).world
    ≡ "prompt" ∷ "invoke" ∷ "cost" ∷ []
unfolding program
stream_resumed = refl

callbacks_keep :
    (fs : List String) (c c' : LlmContext (List String))
    → c.skip_remaining ≡ false
    → run_callbacks note call_back wait fs c ≡ (ok tt, c')
    → c'.skip_remaining ≡ false
unfolding run_callbacks
callbacks_keep [] c c' runs e = ground arith
callbacks_keep (f ∷ fs) c c' runs e =
    callbacks_keep fs (record c { world = c.world ++ f ∷ [] }) c' runs e

abbrev logged : LlmLifecycleHook → String → LlmContext (List String) → LlmContext (List String)
logged h name c = record c { current_phase = some h; world = c.world ++ name ∷ [] }

table-NeverSkips : NeverSkips note call_back wait table
unfolding execute_hook run_processors run_processor is_empty
table-NeverSkips pre_invoke c c' runs e = ground (
  arith,
  callbacks_keep (c.user_callbacks pre_invoke) (logged pre_invoke "prompt" c) c' runs,
  callbacks_keep (c.user_callbacks pre_invoke) c c' runs,
)
table-NeverSkips invoke c c' runs e = ground (
  arith,
  callbacks_keep (c.user_callbacks invoke) (logged invoke "invoke" c) c' runs,
  callbacks_keep (c.user_callbacks invoke) c c' runs,
)
table-NeverSkips tool_execution c c' runs e = ground (
  arith,
  callbacks_keep (c.user_callbacks tool_execution) (logged tool_execution "tools" c) c' runs,
  callbacks_keep (c.user_callbacks tool_execution) c c' runs,
)
table-NeverSkips post_invoke c c' runs e =
    ground (arith, callbacks_keep (c.user_callbacks post_invoke) c c' runs)
table-NeverSkips finalize c c' runs e = ground (
  arith,
  callbacks_keep (c.user_callbacks finalize) (logged finalize "cost" c) c' runs,
  callbacks_keep (c.user_callbacks finalize) c c' runs,
)

execute-eq-phases_example :
    execute note call_back wait table post_invoke stream
    ≡ (execute_hook note call_back wait table pre_invoke
          then_do execute_hook note call_back wait table invoke
          then_do execute_hook note call_back wait table tool_execution
          then_do execute_hook note call_back wait table post_invoke
          then_do finish note call_back wait table)
        stream
execute-eq-phases_example = execute-eq-phases note call_back wait table stream table-NeverSkips refl

abbrev answered : LlmContext (List String)
answered = record plain { skip_remaining = true }

abbrev early : Processor
early = processor "early" pre_invoke 10

abbrev late : Processor
late = processor "late" pre_invoke 200

-- A processor that is registered again with another order gets the order, and keeps its place: the
-- list is no longer sorted.
registered_again :
    register_processor early (some 300) (early ∷ late ∷ [])
    ≡ processor "early" pre_invoke 300 ∷ late ∷ []
unfolding program
registered_again = refl
