-- ===== src/Workflow/Dispatch/Next.antt =====
-- Which node follows a node.
use optorch.Base.{
  ◌≡◌, refl, Bool, String, List, [], Option, none, some, Outcome, ok, raise, ◌==◌, sym, ap, subst,
  ◌∙◌, arith, if_both, ◌⊎◌, inl, inr, In,
}
use optorch.Base.Dict
use optorch.Workflow.State.{
  Value, null, text, flag, object, State, truthy, get, has, Cell, result_of,
}
use optorch.Workflow.Failures.{RetryConfig}
use optorch.Workflow.Retry.{Failure, returned_result, execute_with_retry}
use optorch.Workflow.Routing.{RoutingConfig, resolve}
use optorch.Workflow.Routing.Targets.{LeadsInto, named, resolve-LeadsInto}
use optorch.Workflow.Lifecycle.{Node, name_or_null, build_hooks_config, execute_with_node}
use optorch.Workflow.Lifecycle.Hooks.{get-execute_with_node}
use optorch.Workflow.Dispatch.{
  NodeConfig, World, NodeController, Visit, finished, onward, or_default, next_value, routed,
  resolve_next_node, proceed, follow, after_node, run_node, leave, visit_node, visit, enter_state,
  enter_context,
}

-- the text of a value
text_of : String → Value → String
text_of other (text name) = name
text_of other null = other
text_of other (flag b) = other
text_of other (object b name) = other

text-injective : (a b : String) → text a ≡ text b → a ≡ b
unfolding text_of
text-injective a b e = ap (text_of a) e

module _ (E : Type 0) {W : Type 0} (next_node : String) (left : State) (after : World W) where
  unfoldable pub Onward : Visit E W → Type 0
  Onward v = v ≡ onward next_node left after

  pub not_finished : (o : Outcome (Failure E) State) (w : World W) → ¬ Onward (finished o w)
  unfolding Onward
  not_finished o w e = ground (arith, e)

  onward_name :
      (name : String) (s : State) (w : World W) → Onward (onward name s w) → name ≡ next_node
  unfolding Onward
  onward_name name s w e = ap name_of e
    where
      name_of : Visit E W → String
      name_of (finished o w) = name
      name_of (onward n s w) = n

  proceed-Onward :
      (v : Value) (result : State) (world : World W)
      → Onward (proceed v result world)
      → v ≡ text next_node
  unfolding proceed
  proceed-Onward null result world e = absurd (not_finished _ _ e)
  proceed-Onward (text name) result world e =
      if_both (λ (v : Visit E W). Onward v → text name ≡ text next_node) (name == "") _ _
        (λ _ e. absurd (not_finished _ _ e)) (λ _ e. ap text (onward_name name result world e)) e
  proceed-Onward (flag b) result world e =
      if_both (λ (v : Visit E W). Onward v → flag b ≡ text next_node) b _ _
        (λ _ e. absurd (not_finished _ _ e)) (λ _ e. absurd (not_finished _ _ e)) e
  proceed-Onward (object b name) result world e =
      if_both (λ (v : Visit E W). Onward v → object b name ≡ text next_node) b _ _
        (λ _ e. absurd (not_finished _ _ e)) (λ _ e. absurd (not_finished _ _ e)) e

  -- by the fallback of a failure, or by the next node that was resolved
  follow-Onward :
      (next : Outcome (Failure E) Value) (result : State) (world : World W)
      → Onward (follow next result world)
      → (get "_retry_fallback" result ≡ text next_node) ⊎ (next ≡ ok (text next_node))
  unfolding follow
  follow-Onward (raise error) result world e = absurd (not_finished _ _ e)
  follow-Onward (ok next) result world e =
      if_both
        (λ (v : Visit E W).
          Onward v
          → (get "_retry_fallback" result ≡ text next_node)
            ⊎ Path (Outcome (Failure E) Value) (ok next) (ok (text next_node)))
        (has "_retry_fallback" result) _ _
        (λ _ e. inl (proceed-Onward (get "_retry_fallback" result) _ world e))
        (λ _ e. inr (ap ok (proceed-Onward next result world e))) e

unfoldable pub routing_of : Option NodeConfig → Option RoutingConfig
routing_of none = none
routing_of (some config) = config.routing

-- the routing section of a node names it
unfoldable pub NamedBy : Option RoutingConfig → String → Type 0
NamedBy none next_node = ⊥
NamedBy (some routing) next_node = In (some next_node) (named routing)

module _ {E W : Type 0} (controller : NodeController E W) (next_node : String) where
  next_value-ok :
      (route : Outcome (Failure E) (Option String)) (nodes : List (Option String))
      → LeadsInto nodes route
      → next_value route ≡ ok (text next_node)
      → In (some next_node) nodes
  unfolding LeadsInto
  next_value-ok (raise error) nodes leads e = absurd (ground (arith, e))
  next_value-ok (ok none) nodes leads e = absurd (ground (arith, e))
  next_value-ok (ok (some name)) nodes leads e =
      subst (λ n. In (some n) nodes) (text-injective name next_node (ap value_of e)) leads
    where
      value_of : Outcome (Failure E) Value → Value
      value_of (ok v) = v
      value_of (raise error) = null

  resolve-NamedBy :
      (routing : Option RoutingConfig) (result : State)
      → next_value (resolve {E = E} controller.holds routing result) ≡ ok (text next_node)
      → NamedBy routing next_node
  unfolding NamedBy resolve
  resolve-NamedBy none result e = absurd (ground (arith, e))
  resolve-NamedBy (some routing) result e =
      next_value-ok (resolve controller.holds (some routing) result) (named routing)
        (resolve-LeadsInto E controller.holds routing result) e

  routed-NamedBy :
      (config : Option NodeConfig) (result : State)
      → routed controller config result ≡ ok (text next_node)
      → NamedBy (routing_of config) next_node
  unfolding routed routing_of
  routed-NamedBy none result e = absurd (ground (arith, e))
  routed-NamedBy (some config) result e = resolve-NamedBy config.routing result e

  resolve_next_node_lem :
      (node_name : String) (result : State)
      → resolve_next_node controller node_name result ≡ ok (text next_node)
      → (get "next_node" result ≡ text next_node)
        ⊎ NamedBy (routing_of (Dict.get node_name controller.configs)) next_node
  unfolding resolve_next_node
  resolve_next_node_lem node_name result e =
      if_both
        (λ (o : Outcome (Failure E) Value).
          o ≡ ok (text next_node)
          → (get "next_node" result ≡ text next_node)
            ⊎ NamedBy (routing_of (Dict.get node_name controller.configs)) next_node)
        (truthy (get "next_node" result)) _ _ (λ _ e. inl (ap value_of e))
        (λ _ e. inr (routed-NamedBy (Dict.get node_name controller.configs) result e)) e
    where
      value_of : Outcome (Failure E) Value → Value
      value_of (ok v) = v
      value_of (raise error) = null

-- where the name of the next node comes from, when this node was called so
pub data NextOf {E W : Type 0} (controller : NodeController E W) (given : Bool) (node_name : String)
    (state : State) (world : World W) (next_node : String) : Type 0 where
  by_route :
      (node : Node E (World W)) (asked left : State) (before after : World W)
      → Dict.get node_name controller.nodes ≡ some node
      → node.route asked before ≡ (ok (left, some next_node), after)
      → NextOf controller given node_name state world next_node
  by_config :
      NamedBy (routing_of (Dict.get node_name controller.configs)) next_node
      → NextOf controller given node_name state world next_node
  by_fallback :
      (node : Node E (World W)) (config : NodeConfig) (cell : Cell) (after : World W)
      → Dict.get node_name controller.nodes ≡ some node
      → execute_with_node controller.intents controller.hooks node
          (enter_state node_name config state)
          (enter_context given node_name config world)
        ≡ (ok cell, after)
      → get "_retry_fallback" (result_of cell) ≡ text next_node
      → NextOf controller given node_name state world next_node

module _ {E W : Type 0} (controller : NodeController E W) (given : Bool)
    (node_name next_node : String) (state : State) (world : World W) (node : Node E (World W))
    (known : Dict.get node_name controller.nodes ≡ some node)
    (hooks : controller.hooks ≡ build_hooks_config []) where
  Target : Type 0
  Target = NextOf controller given node_name state world next_node

  -- the lifecycle of the node, in the state and the context that the call prepares
  lifecycle : Outcome E Cell × World W
  lifecycle =
      let config = or_default (Dict.get node_name controller.configs) in
      execute_with_node controller.intents controller.hooks node
        (enter_state node_name config state) (enter_context given node_name config world)

  route_returned :
      (next : Option String) (asked left : State) (before after : World W) (stored : Value)
      → node.route asked before ≡ (ok (left, next), after)
      → stored ≡ name_or_null next
      → stored ≡ text next_node
      → Target
  unfolding Target
  route_returned none asked left before after stored answered is_answer reads =
      absurd (ground (arith, is_answer, reads))
  route_returned (some name) asked left before after stored answered is_answer reads =
      by_route node asked left before after known (
        subst (λ n. node.route asked before ≡ (ok (left, some n), after))
          (text-injective name next_node (sym is_answer ∙ reads)) answered)

  resolved_next :
      (cell : Cell) (after : World W)
      → lifecycle ≡ (ok cell, after)
      → (get "next_node" (result_of cell) ≡ text next_node)
        ⊎ NamedBy (routing_of (Dict.get node_name controller.configs)) next_node
      → Target
  unfolding lifecycle Target
  resolved_next cell after ran (inr named_there) = by_config named_there
  resolved_next cell after ran (inl reads) =
      let config = or_default (Dict.get node_name controller.configs) in
      let (asked, before, left, next, answered, stored) =
        get-execute_with_node controller.intents node (enter_state node_name config state)
          (enter_context given node_name config world) after cell
          (ap
              (λ h.
                execute_with_node controller.intents h node (enter_state node_name config state)
                  (enter_context given node_name config world))
              (sym hooks)
            ∙ ran) in
      route_returned next asked left before after (get "next_node" (result_of cell)) answered stored
        reads

  followed :
      (cell : Cell) (after : World W)
      → lifecycle ≡ (ok cell, after)
      → (get "_retry_fallback" (result_of cell) ≡ text next_node)
        ⊎ (resolve_next_node controller node_name (result_of cell) ≡ ok (text next_node))
      → Target
  unfolding lifecycle Target
  followed cell after ran (inl fallback) =
      by_fallback node (or_default (Dict.get node_name controller.configs)) cell after known ran
        fallback
  followed cell after ran (inr resolved) =
      resolved_next cell after ran
        (resolve_next_node_lem controller next_node node_name (result_of cell) resolved)

  ran_once :
      (run : Outcome E Cell × World W) (left : State) (after : World W)
      → lifecycle ≡ run
      → leave controller node_name given world.context (
          returned_result controller.format controller.failures controller.sleep
            (execute_with_node controller.intents controller.hooks node)
            run)
        ≡ onward next_node left after
      → Target
  unfolding leave after_node Onward
  ran_once (raise error, w) left after ran e = absurd (ground (arith, e))
  ran_once (ok cell, w) left after ran e =
      followed cell w ran (follow-Onward E next_node left after _ (result_of cell) _ e)

pub visit-NextOf :
    {E W : Type 0} (controller : NodeController E W) (given : Bool) (node_name next_node : String)
    (state left : State) (world after : World W)
    → controller.hooks ≡ build_hooks_config []
    → (or_default (Dict.get node_name controller.configs)).retry ≡ none
    → visit controller given node_name state world ≡ onward next_node left after
    → NextOf controller given node_name state world next_node
unfolding visit visit_node leave run_node execute_with_retry after_node lifecycle Target
visit-NextOf {E = E} {W = W} controller given node_name next_node state left world after hooks
      no_retry e =
    by_node (Dict.get node_name controller.nodes) refl e
  where
    config : NodeConfig
    config = or_default (Dict.get node_name controller.configs)

    retried : Node E (World W) → Option RetryConfig → Outcome (Failure E) State × World W
    retried node retry =
        execute_with_retry controller.format controller.failures controller.sleep
          (execute_with_node controller.intents controller.hooks node) retry
          (enter_state node_name config state) (enter_context given node_name config world)

    by_node :
        (found : Option (Node E (World W)))
        → Dict.get node_name controller.nodes ≡ found
        → visit_node controller node_name given found state world ≡ onward next_node left after
        → NextOf controller given node_name state world next_node
    by_node none missing e = absurd (ground (arith, e))
    by_node (some node) known e =
        ran_once controller given node_name next_node state world node known hooks
          (lifecycle controller given node_name next_node state world node known hooks) left after
          refl
          (ap (λ retry. leave controller node_name given world.context (retried node retry))
              (sym no_retry)
            ∙ e)
