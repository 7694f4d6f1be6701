-- ===== src/Workflow/Tests.antt =====
-- Concrete runs of the engine: a node that fails, a route by the state, an intent that asks to skip a node.
use optorch.Base.{
  ◌≡◌, refl, ℕ, suc, ◌+◌, ◌<◌, ◌≤◌, true, false, String, [], ◌∷◌, Option, none, some, Outcome, ok,
  raise, if◌then◌else◌, arith, eq_iff, ltb, keep,
}
use optorch.Base.Dict
use optorch.Base.Dict.{Dict}
use optorch.Workflow.State
use optorch.Workflow.Intents
use optorch.Workflow.Lifecycle
use optorch.Workflow.State.{Value, null, text, flag, State, get, Cell, same, result_of}
use optorch.Workflow.Failures.{RetryConfig, defaults, register, fallback, handle}
use optorch.Workflow.Retry.{attempts, after_attempt, execute_with_retry}
use optorch.Workflow.Retry.Outcomes.{
  OkWithoutError, execute_with_retry-OkWithoutError, execute_with_retry_bounds, Counts,
}
use optorch.Workflow.Routing.{table, rules, RoutingConfig}
use optorch.Workflow.Intents.{IntentContext, IntentHandler, IntentRegistry, execute_multiple}
use optorch.Workflow.Intents.Order.{execute_multiple-keep}
use optorch.Workflow.Lifecycle.{
  HookConfig, default_hooks, build_hooks_config, Node, execute_with_node, name_or_null,
  execute_intents, pre_dispatch,
}
use optorch.Workflow.Lifecycle.Hooks.{
  with_execute, execute_with_node-with_execute, get-execute_with_node,
}
use optorch.Workflow.Dispatch.{
  visit, visit_node, dispatch, go_on, leave, restore_context, after_node, follow, proceed,
  resolve_next_node, routed, run_node, enter_state, enter_context,
}
use optorch.Workflow.Dispatch.Tests.{Log, fill, start}

-- a node that fails until the third call
abbrev third_time : State → ℕ → Outcome String Cell × ℕ
third_time state calls =
    (ok (same (("error", if ltb calls 2 then text "no" else null) ∷ [])), suc calls)

abbrev two_attempts : RetryConfig
two_attempts = record {
  enabled = true;
  max_attempts = 2;
  on_failure = "fallback";
  default_value = [];
  fallback_node = text "plan";
  escalation_message = "";
}

execute_with_retry-OkWithoutError_example :
    OkWithoutError
      (execute_with_retry fill (defaults fill) (λ w. w) third_time (some two_attempts) [] 0).0
unfolding Dict.has defaults register Dict.insert
execute_with_retry-OkWithoutError_example =
    execute_with_retry-OkWithoutError fill (λ w. w) third_time two_attempts refl
      (λ e. absurd (ground (arith, (eq_iff "fallback" "halt").1 e))) known [] 0
  where
    known : Dict.has "fallback" (defaults fill) ≡ true
    known = refl

third_time-Counts : Counts (λ calls. calls) (λ w. w) third_time
unfolding Counts
third_time-Counts = (λ w. refl, λ state w. refl)

abbrev fallen_back : State
fallen_back = ("error", null) ∷ ("_retry_fallback", text "plan") ∷ []

both_attempts :
    execute_with_retry fill (defaults fill) (λ w. w) third_time (some two_attempts) [] 0
    ≡ (ok fallen_back, 2)
unfolding execute_with_retry attempts after_attempt handle defaults register fallback State.get
    State.set Dict.get Dict.insert
both_attempts = refl

execute_with_retry_bounds_example : (0 < 2) × (2 ≤ 0 + 2)
execute_with_retry_bounds_example =
    execute_with_retry_bounds fill (defaults fill) (λ w. w) third_time (λ calls. calls)
      third_time-Counts two_attempts refl (ground arith) [] 0 2 (ok fallen_back) both_attempts

abbrev by_mood : RoutingConfig
by_mood = record {
  route_type = some "conditional";
  next = none;
  on = table (("happy", "act") ∷ []);
  conditions = rules (record { condition = some "mood"; target = some (some "plan") } ∷ []);
  default = some "done";
}

-- an intent that asks to skip the node
abbrev skipping : IntentRegistry String Log
skipping =
    (
      "skip",
      record {
        should_execute = λ context world. true;
        execute = λ context world. (
          ok (
            record {
              operation = context.operation;
              state = context.state;
              skip_execution = true;
              result = none;
            },
            none,
          ),
          world,
        );
      },
    )
    ∷ []

abbrev skipped_node : Node String Log
skipped_node = record {
  pre_intents = "skip" ∷ [];
  post_intents = [];
  execute = λ state world. (raise "not called", world);
  route = λ state world. (ok (state, some "act"), world);
  methods = [];
}

skip_asked :
    execute_intents skipping
      ("create_llm_context" ∷ skipped_node.pre_intents)
      pre_dispatch
      (same [])
      start
    ≡ (ok (same [], true), start)
unfolding execute_intents Lifecycle.take_results Lifecycle.value Intents.execute_multiple
    Intents.execute Intents.after_intent Intents.chosen Intents.last_state State.then_cell Dict.get
    Dict.insert
skip_asked = refl

execute_with_node-with_execute_example :
    execute_with_node skipping
      (build_hooks_config [])
      (with_execute (λ state world. (ok (same state), world)) skipped_node)
      []
      start
    ≡ execute_with_node skipping (build_hooks_config []) skipped_node [] start
execute_with_node-with_execute_example =
    execute_with_node-with_execute skipping skipped_node (λ state world. (ok (same state), world))
      [] start start (same []) skip_asked

routed_to_act :
    execute_with_node skipping (build_hooks_config []) skipped_node [] start
    ≡ (ok (same (("next_node", text "act") ∷ [])), start)
unfolding Lifecycle.build_hooks_config dispatch visit visit_node go_on leave restore_context
    after_node follow proceed resolve_next_node routed run_node enter_state enter_context
    execute_with_retry Lifecycle.execute_with_node Lifecycle.execute_hooks Lifecycle.execute_hook
    Lifecycle.get_hooks Lifecycle.get_hook_config Lifecycle.value Lifecycle.run_hook
    Lifecycle.run_intents Lifecycle.run_method Lifecycle.mark_skip Lifecycle.intents_of
    Lifecycle.execute_intents Lifecycle.take_results Lifecycle.call_node_method Lifecycle.call_on
    Lifecycle.call_route Intents.execute_multiple Intents.chosen Intents.last_state State.get
    State.set State.has State.then_cell Dict.get Dict.insert Dict.has Intents.execute
    Intents.after_intent
routed_to_act = refl

get-execute_with_node_example :
    (routed : State) × (before : Log) × (left : State) × (next_node : Option String)
    × (skipped_node.route routed before ≡ (ok (left, next_node), start))
    × (get "next_node" (("next_node", text "act") ∷ []) ≡ name_or_null next_node)
get-execute_with_node_example =
    get-execute_with_node skipping skipped_node [] start start
      (same (("next_node", text "act") ∷ [])) routed_to_act

abbrev nothing_yet : IntentContext
nothing_yet = record {
  operation = "pre_dispatch";
  state = [];
  skip_execution = false;
  result = none;
}

execute_multiple-keep_example :
    execute_multiple skipping ("unknown" ∷ "skip" ∷ []) nothing_yet [] start
    ≡ execute_multiple skipping
        (keep (λ name. Dict.has name skipping) ("unknown" ∷ "skip" ∷ []))
        nothing_yet
        []
        start
execute_multiple-keep_example =
    execute_multiple-keep skipping ("unknown" ∷ "skip" ∷ []) nothing_yet [] start
