-- ===== src/Workflow/Dispatch/Tests.antt =====
-- Concrete runs of `dispatch`: the node "plan" hands on to the node "act".
use mathlib.Core.Option.{some-injective}
use optorch.Base.{
  ◌≡◌, refl, ℕ, suc, ◌<◌, true, false, String, [], ◌∷◌, Option, none, some, Outcome, ok, raise,
  if◌then◌else◌, ◌==◌, if_both, ap, subst, arith, eq_iff,
}
use optorch.Base.Dict
use optorch.Base.Dict.{Dict}
use optorch.Workflow.State
use optorch.Workflow.Intents
use optorch.Workflow.Lifecycle
use optorch.Workflow.State.{has, Value, null, text, flag, State, get, Cell, same, result_of}
use optorch.Workflow.Failures.{defaults}
use optorch.Workflow.Retry.{Failure, execute_with_retry}
use optorch.Workflow.Routing.Targets.{named}
use optorch.Workflow.Intents.{IntentContext, IntentHandler, IntentRegistry, execute_multiple}
use optorch.Workflow.Lifecycle.{
  HookConfig, default_hooks, build_hooks_config, Node, execute_with_node, name_or_null,
  execute_intents, pre_dispatch,
}
use optorch.Workflow.Dispatch.{
  World, NodeController, visit, visit_node, dispatch, go_on, leave, restore_context, after_node,
  follow, proceed, resolve_next_node, routed, run_node, enter_state, enter_context,
}
use optorch.Workflow.Dispatch.Context.{dispatch_context}
use optorch.Workflow.Dispatch.Runs.{Ends}
use optorch.Workflow.Dispatch.Next.{NamedBy, routing_of}
use optorch.Workflow.Dispatch.Acyclic.{
  WithoutFallback, NoRetries, RoutesFall, SectionsFall, NoFallbacks, dispatch-Ends,
}
use optorch.Workflow.Lifecycle.{Called}

abbrev pub Log : Type 0
Log = World ℕ

abbrev pub fill : String → Value → Outcome String String
fill template error = ok template

-- a node that answers with a new state, and counts its runs outside of the context
abbrev pub answering : String → Option String → Node String Log
answering response next_node = record {
  pre_intents = [];
  post_intents = [];
  execute = λ state world. (
    ok (record { original = state; other = some (("response", text response) ∷ []) }),
    record {
      context = record { current_node_name = none; current_phase = some "lost" };
      outside = suc world.outside;
    },
  );
  route = λ state world. (ok (state, next_node), world);
  methods = [];
}

abbrev two_nodes : NodeController String ℕ
two_nodes = record {
  format = fill;
  failures = defaults fill;
  sleep = λ world. world;
  holds = λ condition state. false;
  hooks = default_hooks;
  intents = [];
  nodes = ("plan", answering "a plan" (some "act")) ∷ ("act", answering "done" none) ∷ [];
  configs = [];
}

abbrev pub start : Log
start = record {
  context = record { current_node_name = some "caller"; current_phase = none };
  outside = 0;
}

abbrev done : Outcome (Failure String) State
done = ok (("response", text "done") ∷ ("next_node", null) ∷ [])

abbrev after_both : Log
after_both = record { context = start.context; outside = 2 }

both_run : dispatch two_nodes true 2 "plan" [] start ≡ some (done, after_both)
unfolding dispatch visit visit_node go_on leave restore_context after_node follow proceed
    resolve_next_node routed run_node enter_state enter_context execute_with_retry
    Lifecycle.execute_with_node Lifecycle.execute_hooks Lifecycle.execute_hook Lifecycle.get_hooks
    Lifecycle.get_hook_config Lifecycle.value Lifecycle.run_hook Lifecycle.run_intents
    Lifecycle.run_method Lifecycle.mark_skip Lifecycle.intents_of Lifecycle.execute_intents
    Lifecycle.take_results Lifecycle.call_node_method Lifecycle.call_on Lifecycle.call_route
    Intents.execute_multiple Intents.chosen Intents.last_state State.get State.set State.has
    State.then_cell Dict.get Dict.insert Dict.has
both_run = refl

dispatch_context_example : after_both.context ≡ start.context
dispatch_context_example = dispatch_context two_nodes 2 "plan" [] start done after_both both_run

abbrev a_plan : State
a_plan = ("response", text "a plan") ∷ ("next_node", text "act") ∷ []

abbrev rank : String → ℕ
rank node_name = if node_name == "plan" then 1 else 0

-- what is stored under a name is one of the two nodes
two_nodes-cases :
    (P : String → Node String Log → Type 0)
    → P "plan" (answering "a plan" (some "act"))
    → P "act" (answering "done" none)
    → (node_name : String) (node : Node String Log) → Dict.get node_name two_nodes.nodes ≡ some node
    → P node_name node
unfolding Dict.get
two_nodes-cases P plan act node_name node =
    if_both Stored ("plan" == node_name) _ _ (λ equal e. here "plan" equal plan e)
      (λ _.
        if_both Stored ("act" == node_name) _ _ (λ equal e. here "act" equal act e)
          (λ _ e. absurd (ground (arith, e))))
  where
    Stored : Option (Node String Log) → Type 0
    Stored found = found ≡ some node → P node_name node

    here :
        (name : String) {stored : Node String Log}
        → (name == node_name) ≡ true
        → P name stored
        → some stored ≡ some node
        → P node_name node
    here name {stored} equal p e =
        subst (P node_name) (some-injective _ _ e)
          (subst (λ n. P n stored) ((eq_iff name node_name).0 equal) p)

two_nodes-NoRetries : NoRetries two_nodes
unfolding NoRetries Dict.get
two_nodes-NoRetries node_name = refl

two_nodes-RoutesFall : RoutesFall two_nodes rank
unfolding RoutesFall
two_nodes-RoutesFall node_name next_node node asked left before after known =
    two_nodes-cases Falls plan act node_name node known
  where
    Falls : String → Node String Log → Type 0
    Falls name node =
        node.route asked before ≡ (ok (left, some next_node), after) → rank next_node < rank name

    answer : Called String Log (State × Option String) → Option String
    answer (ok (s, next), w) = next
    answer (raise error, w) = none

    plan : Falls "plan" (answering "a plan" (some "act"))
    plan e = subst (λ n. rank n < 1) (some-injective "act" next_node (ap answer e)) (ground arith)

    act : Falls "act" (answering "done" none)
    act e = absurd (ground (arith, ap answer e))

two_nodes-SectionsFall : SectionsFall two_nodes rank
unfolding SectionsFall NamedBy routing_of Dict.get
two_nodes-SectionsFall node_name next_node named = absurd named

two_nodes-NoFallbacks : NoFallbacks two_nodes
unfolding dispatch visit visit_node go_on leave restore_context after_node follow proceed
    resolve_next_node routed run_node enter_state enter_context execute_with_retry
    Lifecycle.execute_with_node Lifecycle.execute_hooks Lifecycle.execute_hook Lifecycle.get_hooks
    Lifecycle.get_hook_config Lifecycle.value Lifecycle.run_hook Lifecycle.run_intents
    Lifecycle.run_method Lifecycle.mark_skip Lifecycle.intents_of Lifecycle.execute_intents
    Lifecycle.take_results Lifecycle.call_node_method Lifecycle.call_on Lifecycle.call_route
    Intents.execute_multiple Intents.chosen Intents.last_state State.get State.set State.has
    State.then_cell Dict.get Dict.insert Dict.has NoFallbacks WithoutFallback
two_nodes-NoFallbacks node_name node state world after cell known =
    two_nodes-cases Keeps (λ missing e. keeps refl e) (λ missing e. keeps refl e) node_name node
      known
  where
    Keeps : String → Node String Log → Type 0
    Keeps name node =
        WithoutFallback state
        → execute_with_node two_nodes.intents two_nodes.hooks node state world ≡ (ok cell, after)
        → WithoutFallback (result_of cell)

    cell_of : Called String Log Cell → Cell
    cell_of (ok c, w) = c
    cell_of (raise error, w) = cell

    keeps :
        {c : Cell} {w : Log}
        → WithoutFallback (result_of c)
        → Path (Called String Log Cell) (ok c, w) (ok cell, after)
        → WithoutFallback (result_of cell)
    keeps missing e = subst (λ c. WithoutFallback (result_of c)) (ap cell_of e) missing

dispatch-Ends_example :
    (end : Outcome (Failure String) State × Log) × Ends two_nodes true "plan" [] start end
    × ((fuel : ℕ) → rank "plan" < fuel → dispatch two_nodes true fuel "plan" [] start ≡ some end)
unfolding Lifecycle.build_hooks_config WithoutFallback State.has Dict.has
dispatch-Ends_example =
    dispatch-Ends two_nodes true rank refl two_nodes-NoRetries two_nodes-RoutesFall
      two_nodes-SectionsFall two_nodes-NoFallbacks "plan" [] start refl
