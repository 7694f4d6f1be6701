-- ===== src/Workflow/Dispatch.antt =====
-- `NodeController.dispatch` of controller/node_controller.py: a node runs, and the next one follows. The controller is
-- a record of what its registries hold; a node stands for the instance that its class makes. `dispatch` calls itself
-- for the next node, here on fuel: none is a chain of nodes that has not ended yet.
pub mod Runs
pub mod Context
pub mod Next
pub mod Acyclic
pub mod Tests
use optorch.Base.{
  ◌≡◌, refl, ℕ, zero, suc, Bool, true, false, String, List, [], ◌∷◌, Option, none, some, Outcome,
  ok, raise, if◌then◌else◌, ◌==◌,
}
use optorch.Base.Dict
use optorch.Base.Dict.{Dict}
use optorch.Workflow.State.{
  Value, null, text, flag, object, State, truthy, get, set, has, remove, Cell,
}
use optorch.Workflow.Failures.{RetryConfig, FailureTypeRegistry}
use optorch.Workflow.Retry.{Failure, unknown_node, execute_with_retry}
use optorch.Workflow.Routing.{RoutingConfig, resolve}
use optorch.Workflow.Intents.{IntentRegistry}
use optorch.Workflow.Lifecycle.{HookConfig, Node, name_or_null, execute_with_node}

pub record NodeConfig : Type 0 where
  pub phase : Option String
  pub retry : Option RetryConfig
  pub routing : Option RoutingConfig

-- `NodeContext`, as far as `dispatch` sets it
pub record NodeContext : Type 0 where
  pub current_node_name : Option String
  pub current_phase : Option String

-- the object of the context, which the nodes may change too, and the rest
pub record World (W : Type 0) : Type 0 where
  pub context : NodeContext
  pub outside : W

-- `format` fills a template of texts, `holds` is `eval` of a condition, and `sleep` is that of asyncio
pub record NodeController (E W : Type 0) : Type 0 where
  pub format : String → Value → Outcome E String
  pub failures : FailureTypeRegistry format
  pub sleep : World W → World W
  pub holds : String → State → Bool
  pub hooks : List HookConfig
  pub intents : IntentRegistry E (World W)
  pub nodes : Dict (Node E (World W))
  pub configs : Dict NodeConfig

abbrev pub default_config : NodeConfig
default_config = record { phase = none; retry = none; routing = none }

abbrev pub or_default : Option NodeConfig → NodeConfig
or_default none = default_config
or_default (some config) = config

abbrev pub set_phase : Option String → State → State
set_phase none state = state
set_phase (some phase) state = if phase == "" then state else set "current_phase" (text phase) state

unfoldable pub enter_state : String → NodeConfig → State → State
enter_state node_name config state =
    set_phase config.phase (set "current_node" (text node_name) state)

abbrev pub phase_or : Option String → Option String → Option String
phase_or none before = before
phase_or (some phase) before = if phase == "" then before else some phase

abbrev pub next_value : {E : Type 0} → Outcome E (Option String) → Outcome E Value
next_value (raise error) = raise error
next_value (ok next) = ok (name_or_null next)

module _ {W : Type 0} where
  -- `given`: the call has a context
  unfoldable pub enter_context : Bool → String → NodeConfig → World W → World W
  enter_context given node_name config world =
      if given
      then record {
        context = record {
          current_node_name = some node_name;
          current_phase = phase_or config.phase world.context.current_phase;
        };
        outside = world.outside;
      }
      else world

  unfoldable pub restore_context : Bool → NodeContext → World W → World W
  restore_context given previous world =
      if given then record { context = previous; outside = world.outside } else world

-- what a call does: it ends, or it calls itself
pub data Visit (E W : Type 0) : Type 0 where
  finished : Outcome (Failure E) State → World W → Visit E W
  onward : String → State → World W → Visit E W

module _ {E W : Type 0} where
  unfoldable pub routed : NodeController E W → Option NodeConfig → State → Outcome (Failure E) Value
  routed controller none result = ok null
  routed controller (some config) result =
      next_value (resolve controller.holds config.routing result)

  unfoldable pub resolve_next_node : NodeController E W → String → State → Outcome (Failure E) Value
  resolve_next_node controller node_name result =
      let by_config = routed controller (Dict.get node_name controller.configs) result in
      if truthy (get "next_node" result) then ok (get "next_node" result) else by_config

  -- any other value than a text is no name of a node
  unfoldable pub proceed : Value → State → World W → Visit E W
  proceed (text next_node) result world =
      if next_node == "" then finished (ok result) world else onward next_node result world
  proceed null result world = finished (ok result) world
  proceed (flag b) result world =
      if b then finished (raise unknown_node) world else finished (ok result) world
  proceed (object b name) result world =
      if b then finished (raise unknown_node) world else finished (ok result) world

  unfoldable pub follow : Outcome (Failure E) Value → State → World W → Visit E W
  follow (raise error) result world = finished (raise error) world
  follow (ok next_node) result world =
      if has "_retry_fallback" result
      then proceed (get "_retry_fallback" result) (remove "_retry_fallback" result) world
      else proceed next_node result world

  unfoldable pub after_node :
      NodeController E W → String → Outcome (Failure E) State → World W → Visit E W
  after_node controller node_name (raise error) world = finished (raise error) world
  after_node controller node_name (ok result) world =
      follow (resolve_next_node controller node_name result) result world

  unfoldable pub run_node :
      NodeController E W
      → Node E (World W)
      → NodeConfig
      → State
      → World W
      → Outcome (Failure E) State × World W
  run_node controller node config state world =
      execute_with_retry controller.format controller.failures controller.sleep
        (execute_with_node controller.intents controller.hooks node) config.retry state world

  -- the context is put back after a result and after an exception
  unfoldable pub leave :
      NodeController E W
      → String
      → Bool
      → NodeContext
      → Outcome (Failure E) State × World W
      → Visit E W
  leave controller node_name given previous (outcome, world) =
      after_node controller node_name outcome (restore_context given previous world)

  unfoldable pub visit_node :
      NodeController E W → String → Bool → Option (Node E (World W)) → State → World W → Visit E W
  visit_node controller node_name given none state world = finished (raise unknown_node) world
  visit_node controller node_name given (some node) state world =
      let config = or_default (Dict.get node_name controller.configs) in
      leave controller node_name given world.context (
        run_node controller node config (enter_state node_name config state)
          (enter_context given node_name config world))

  unfoldable pub visit : NodeController E W → Bool → String → State → World W → Visit E W
  visit controller given node_name state world =
      visit_node controller node_name given (Dict.get node_name controller.nodes) state world

  unfoldable pub go_on :
      Visit E W
      → (String → State → World W → Option (Outcome (Failure E) State × World W))
      → Option (Outcome (Failure E) State × World W)
  go_on (finished outcome world) dispatch_next = some (outcome, world)
  go_on (onward next_node result world) dispatch_next = dispatch_next next_node result world

  unfoldable pub dispatch :
      NodeController E W
      → Bool
      → ℕ
      → String
      → State
      → World W
      → Option (Outcome (Failure E) State × World W)
  dispatch controller given zero node_name state world = none
  dispatch controller given (suc fuel) node_name state world =
      go_on (visit controller given node_name state world) (dispatch controller given fuel)
