-- ===== src/Workflow/Dispatch/Acyclic.antt =====
-- Nodes whose routes make no cycle.
use optorch.Base.{
  ◌≡◌, refl, ℕ, suc, ◌<◌, Bool, false, String, [], Option, none, some, Outcome, ok, raise,
  if◌then◌else◌, ◌==◌, sym, ap, subst, ◌∙◌, arith, if_both,
}
use optorch.Base.Dict
use optorch.Workflow.State.{
  Value, null, text, flag, object, State, or_null, get, set, has, remove, Cell, result_of,
}
use optorch.Workflow.Failures.{RetryConfig}
use optorch.Workflow.Retry.{Failure, returned_result, execute_with_retry}
use optorch.Workflow.Lifecycle.{Node, build_hooks_config, execute_with_node}
use optorch.Workflow.Dispatch.{
  NodeConfig, World, NodeController, Visit, finished, onward, or_default, set_phase, proceed,
  follow, after_node, run_node, leave, visit_node, visit, dispatch, enter_state, enter_context,
}
use optorch.Workflow.Dispatch.Next.{
  Onward, not_finished, routing_of, NamedBy, NextOf, by_route, by_config, by_fallback, visit-NextOf,
}
use optorch.Workflow.Dispatch.Runs.{Ends, Falling, EndsBelow, ends_below}

-- the state asks for no fallback
unfoldable pub WithoutFallback : State → Type 0
WithoutFallback state = has "_retry_fallback" state ≡ false

get-WithoutFallback : (state : State) → WithoutFallback state → get "_retry_fallback" state ≡ null
unfolding WithoutFallback get has
get-WithoutFallback state missing = ap or_null (Dict.get-absent "_retry_fallback" state missing)

has-set :
    (key name : String) (v : Value) (state : State)
    → (key == name) ≡ false
    → has name state ≡ false
    → has name (set key v state) ≡ false
unfolding has set
has-set key name v state differ missing =
    Dict.has-get name (Dict.insert key v state)
    ∙ ap Dict.some_value (
        Dict.get-insert key name v state
        ∙ ap (λ (b : Bool). if b then some v else Dict.get name state) differ
        ∙ Dict.get-absent name state missing)

enter_state-WithoutFallback :
    (node_name : String) (config : NodeConfig) (state : State)
    → WithoutFallback state
    → WithoutFallback (enter_state node_name config state)
unfolding enter_state WithoutFallback
enter_state-WithoutFallback node_name config state missing = by_phase config.phase
  where
    named : has "_retry_fallback" (set "current_node" (text node_name) state) ≡ false
    named = has-set "current_node" "_retry_fallback" (text node_name) state refl missing

    by_phase :
        (phase : Option String)
        → has "_retry_fallback" (set_phase phase (set "current_node" (text node_name) state))
          ≡ false
    by_phase none = named
    by_phase (some phase) =
        if_both WithoutFallback (phase == "") _ _ (λ _. named)
          (λ _. has-set "current_phase" "_retry_fallback" (text phase) _ refl named)

module _ (E : Type 0) {W : Type 0} (next_node : String) (left : State) (after : World W) where
  -- the call for the next node gets the result
  proceed-left :
      (v : Value) (result : State) (world : World W)
      → Onward E next_node left after (proceed v result world)
      → result ≡ left
  unfolding proceed Onward
  proceed-left null result world e = absurd (not_finished E next_node left after _ _ e)
  proceed-left (text name) result world e =
      if_both (λ (v : Visit E W). Onward E next_node left after v → result ≡ left) (name == "") _ _
        (λ _ e. absurd (not_finished E next_node left after _ _ e)) (λ _ e. onward_state e) e
    where
      state_of : Visit E W → State
      state_of (finished o w) = result
      state_of (onward n s w) = s

      onward_state : Onward E next_node left after (onward name result world) → result ≡ left
      onward_state e = ap state_of e
  proceed-left (flag b) result world e =
      if_both (λ (v : Visit E W). Onward E next_node left after v → result ≡ left) b _ _
        (λ _ e. absurd (not_finished E next_node left after _ _ e))
        (λ _ e. absurd (not_finished E next_node left after _ _ e)) e
  proceed-left (object b name) result world e =
      if_both (λ (v : Visit E W). Onward E next_node left after v → result ≡ left) b _ _
        (λ _ e. absurd (not_finished E next_node left after _ _ e))
        (λ _ e. absurd (not_finished E next_node left after _ _ e)) e

  follow-left :
      (next : Outcome (Failure E) Value) (result : State) (world : World W)
      → WithoutFallback result
      → Onward E next_node left after (follow next result world)
      → result ≡ left
  unfolding follow WithoutFallback Onward
  follow-left (raise error) result world missing e =
      absurd (not_finished E next_node left after _ _ e)
  follow-left (ok next) result world missing e = proceed-left next result world (
      ap
        (λ (b : Bool).
          if b
          then proceed {E = E} (get "_retry_fallback" result) (remove "_retry_fallback" result)
              world
          else proceed next result world)
        (sym missing)
      ∙ e)

module _ {E W : Type 0} (controller : NodeController E W) (given : Bool) where
  -- the lifecycle of a node, as the call runs it
  lifecycle : Node E (World W) → NodeConfig → String → State → World W → Outcome E Cell × World W
  lifecycle node config node_name state world =
      execute_with_node controller.intents controller.hooks node
        (enter_state node_name config state) (enter_context given node_name config world)

  -- where the lifecycle asks for no fallback, the next call gets the state that it left
  LeftBy : String → State → State → World W → Type 0
  LeftBy node_name state left world =
      (node : Node E (World W)) × (config : NodeConfig) × (cell : Cell) × (between : World W)
      × (Dict.get node_name controller.nodes ≡ some node)
      × (lifecycle node config node_name state world ≡ (ok cell, between))
      × (WithoutFallback (result_of cell) → result_of cell ≡ left)

  visit-LeftBy :
      (node_name next_node : String) (state left : State) (world after : World W)
      → (or_default (Dict.get node_name controller.configs)).retry ≡ none
      → visit controller given node_name state world ≡ onward next_node left after
      → LeftBy node_name state left world
  unfolding visit visit_node leave run_node execute_with_retry after_node lifecycle LeftBy Onward
  visit-LeftBy node_name next_node state left world after no_retry e =
      by_node (Dict.get node_name controller.nodes) refl e
    where
      config : NodeConfig
      config = or_default (Dict.get node_name controller.configs)

      retried : Node E (World W) → Option RetryConfig → Outcome (Failure E) State × World W
      retried node retry =
          execute_with_retry controller.format controller.failures controller.sleep
            (execute_with_node controller.intents controller.hooks node) retry
            (enter_state node_name config state) (enter_context given node_name config world)

      by_run :
          (node : Node E (World W))
          → Dict.get node_name controller.nodes ≡ some node
          → (run : Outcome E Cell × World W) → lifecycle node config node_name state world ≡ run
          → leave controller node_name given world.context (
              returned_result controller.format controller.failures controller.sleep
                (execute_with_node controller.intents controller.hooks node)
                run)
            ≡ onward next_node left after
          → LeftBy node_name state left world
      by_run node known (raise error, w) ran e = absurd (ground (arith, e))
      by_run node known (ok cell, w) ran e = (
        node,
        config,
        cell,
        w,
        known,
        ran,
        λ missing. follow-left E next_node left after _ (result_of cell) _ missing e,
      )

      by_node :
          (found : Option (Node E (World W)))
          → Dict.get node_name controller.nodes ≡ found
          → visit_node controller node_name given found state world ≡ onward next_node left after
          → LeftBy node_name state left world
      by_node none missing e = absurd (ground (arith, e))
      by_node (some node) known e =
          by_run node known (lifecycle node config node_name state world) refl (
            ap (λ retry. leave controller node_name given world.context (retried node retry))
              (sym no_retry)
            ∙ e)

-- the method `route` of each node returns only nodes of a lower rank
unfoldable pub RoutesFall : {E W : Type 0} → NodeController E W → (String → ℕ) → Type 0
RoutesFall {E} {W} controller rank =
    (node_name next_node : String) (node : Node E (World W)) (asked left : State)
    (before after : World W)
    → Dict.get node_name controller.nodes ≡ some node
    → node.route asked before ≡ (ok (left, some next_node), after)
    → rank next_node < rank node_name

-- the routing section of each node names only nodes of a lower rank
unfoldable pub SectionsFall : {E W : Type 0} → NodeController E W → (String → ℕ) → Type 0
SectionsFall controller rank =
    (node_name next_node : String)
    → NamedBy (routing_of (Dict.get node_name controller.configs)) next_node
    → rank next_node < rank node_name

-- no node adds a fallback to a state
unfoldable pub NoFallbacks : {E W : Type 0} → NodeController E W → Type 0
NoFallbacks {E} {W} controller =
    (node_name : String) (node : Node E (World W)) (state : State) (world after : World W)
    (cell : Cell)
    → Dict.get node_name controller.nodes ≡ some node
    → WithoutFallback state
    → execute_with_node controller.intents controller.hooks node state world ≡ (ok cell, after)
    → WithoutFallback (result_of cell)

-- no node is retried
unfoldable pub NoRetries : {E W : Type 0} → NodeController E W → Type 0
NoRetries controller =
    (node_name : String) → (or_default (Dict.get node_name controller.configs)).retry ≡ none

module _ {E W : Type 0} (controller : NodeController E W) (given : Bool) (rank : String → ℕ)
    (hooks : controller.hooks ≡ build_hooks_config []) (no_retries : NoRetries controller)
    (routes : RoutesFall controller rank) (sections : SectionsFall controller rank)
    (no_fallbacks : NoFallbacks controller) where
  no_fallback :
      (node : Node E (World W)) (config : NodeConfig) (node_name : String) (state : State)
      (world after : World W) (cell : Cell)
      → Dict.get node_name controller.nodes ≡ some node
      → WithoutFallback state
      → lifecycle controller given node config node_name state world ≡ (ok cell, after)
      → WithoutFallback (result_of cell)
  unfolding NoFallbacks lifecycle
  no_fallback node config node_name state world after cell known ready ran =
      no_fallbacks node_name node (enter_state node_name config state)
        (enter_context given node_name config world) after cell known
        (enter_state-WithoutFallback node_name config state ready) ran

  NextOf-falls :
      (node_name next_node : String) (state : State) (world : World W)
      → WithoutFallback state
      → NextOf controller given node_name state world next_node
      → rank next_node < rank node_name
  unfolding RoutesFall SectionsFall lifecycle
  NextOf-falls node_name next_node state world ready
        (by_route node asked left before after known answered) =
      routes node_name next_node node asked left before after known answered
  NextOf-falls node_name next_node state world ready (by_config named) =
      sections node_name next_node named
  NextOf-falls node_name next_node state world ready
        (by_fallback node config cell after known ran fallback) =
      absurd (
        ground (
          arith,
          fallback,
          get-WithoutFallback (result_of cell)
              (no_fallback node config node_name state world after cell known ready ran),
        ))

  visit-Falling : Falling controller given rank WithoutFallback
  unfolding Falling NoRetries LeftBy
  visit-Falling node_name next_node state left world after ready e =
      let (node, config, cell, between, known, ran, result) =
        visit-LeftBy controller given node_name next_node state left world after
          (no_retries node_name) e in
      let clean = no_fallback node config node_name state world between cell known ready ran in
      (
        NextOf-falls node_name next_node state world ready (
            visit-NextOf controller given node_name next_node state left world after hooks
              (no_retries node_name) e),
        subst WithoutFallback (result clean) clean,
      )

-- Where the routes make no cycle, `dispatch` ends. The hooks are those without a configuration and no node is retried;
-- the method `route` of each node and its routing section lead only to nodes of a lower rank, and no state asks for a
-- fallback, neither the first nor one that a node makes of such a state. Then the call for a node ends, with a result or
-- an exception, and `dispatch` gives this end on any fuel above the rank of the node.
pub dispatch-Ends :
    {E W : Type 0} (controller : NodeController E W) (given : Bool) (rank : String → ℕ)
    → controller.hooks ≡ build_hooks_config []
    → NoRetries controller
    → RoutesFall controller rank
    → SectionsFall controller rank
    → NoFallbacks controller
    → (node_name : String) (state : State) (world : World W) → WithoutFallback state
    → (end : Outcome (Failure E) State × World W) × Ends controller given node_name state world end
      × ((fuel : ℕ)
          → rank node_name < fuel
          → dispatch controller given fuel node_name state world ≡ some end)
unfolding EndsBelow
dispatch-Ends controller given rank hooks no_retries routes sections no_fallbacks node_name state
      world ready =
    let (end, ends, runs) =
      ends_below controller given rank WithoutFallback
        (visit-Falling controller given rank hooks no_retries routes sections no_fallbacks)
        (suc (rank node_name)) node_name state world ready (ground arith) in
    (end, ends, λ fuel more. runs fuel (ground (arith, more)))
