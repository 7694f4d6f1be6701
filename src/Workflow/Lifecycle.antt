-- ===== src/Workflow/Lifecycle.antt =====
-- `LifecycleExecutor` of lifecycle/lifecycle_executor.py on `BaseLifecycleExecutor` of lifecycle/base_executor.py: a
-- node runs through the hooks that the configuration names. A node is what its class does; `W` is what it acts on.
pub mod Hooks
use optorch.Base.{
  ◌≡◌, refl, Bool, true, false, String, List, [], ◌∷◌, ◌++◌, Option, none, some, Outcome, ok, raise,
  if◌then◌else◌, ◌==◌, map, keep,
}
use optorch.Base.Dict
use optorch.Base.Dict.{Dict}
use optorch.Workflow.State.{Value, null, text, State, set, Cell, result_of, same, then_cell, modify}
use optorch.Workflow.Intents.{
  IntentContext, IntentHandler, IntentRegistry, Results, Executed, execute_multiple, chosen,
  other_state,
}

pub data LifecycleHook : Type 0 where
  pre_dispatch : LifecycleHook
  execute : LifecycleHook
  post_dispatch : LifecycleHook
  route : LifecycleHook

unfoldable pub value : LifecycleHook → String
value pre_dispatch = "pre_dispatch"
value execute = "execute"
value post_dispatch = "post_dispatch"
value route = "route"

pub record HookConfig : Type 0 where
  pub hook : LifecycleHook
  pub enabled : Bool
  pub execute_intents : Bool
  pub node_method : Option String
  pub core_intents : List String

-- the sequence without a configuration
abbrev pub default_hooks : List HookConfig
default_hooks =
    record {
      hook = pre_dispatch;
      enabled = true;
      execute_intents = true;
      node_method = none;
      core_intents = "create_llm_context" ∷ [];
    }
    ∷ record {
      hook = execute;
      enabled = true;
      execute_intents = false;
      node_method = some "execute";
      core_intents = [];
    }
    ∷ record {
      hook = post_dispatch;
      enabled = true;
      execute_intents = true;
      node_method = none;
      core_intents = "cleanup_llm_context" ∷ [];
    }
    ∷ record {
      hook = route;
      enabled = true;
      execute_intents = false;
      node_method = some "route";
      core_intents = [];
    }
    ∷ []

unfoldable pub build_hooks_config : List HookConfig → List HookConfig
build_hooks_config [] = default_hooks
build_hooks_config (hook_spec ∷ hook_specs) = hook_spec ∷ hook_specs

unfoldable pub get_hooks : List HookConfig → List LifecycleHook
get_hooks [] = []
get_hooks (config ∷ configs) =
    let hooks = get_hooks configs in if config.enabled then config.hook ∷ hooks else hooks

unfoldable pub get_hook_config : LifecycleHook → List HookConfig → Option HookConfig
get_hook_config hook [] = none
get_hook_config hook (config ∷ configs) =
    let later = get_hook_config hook configs in
    if value config.hook == value hook then some config else later

abbrev pub Called : Type 0 → Type 0 → Type 0 → Type 0
Called E W A = Outcome E A × W

-- `route` returns the name of the next node or None; `methods` are the others that the object has
pub record Node (E W : Type 0) : Type 0 where
  pub pre_intents : List String
  pub post_intents : List String
  pub execute : State → W → Called E W Cell
  pub route : State → W → Called E W (State × Option String)
  pub methods : Dict (State → W → Called E W Cell)

pub record NodeLifecycleContext : Type 0 where
  pub state : Cell
  pub skip_execution : Bool

abbrev pub and_then : {E W A B : Type 0} → Called E W A → (A → W → Called E W B) → Called E W B
and_then (raise error, world) next = (raise error, world)
and_then (ok a, world) next = next a world

abbrev pub name_or_null : Option String → Value
name_or_null none = null
name_or_null (some name) = text name

-- the flag of the context is set before the node is run
unfoldable pub mark_skip : LifecycleHook → Bool → Cell × Bool → NodeLifecycleContext
mark_skip hook before (cell, skip) = record {
  state = cell;
  skip_execution = if value hook == "pre_dispatch" then skip else before;
}

module _ {E W : Type 0} where
  unfoldable pub intents_of : LifecycleHook → HookConfig → Node E W → List String
  intents_of hook config node =
      config.core_intents
      ++ (if value hook == "pre_dispatch" then node.pre_intents else node.post_intents)

  -- the states that the intents leave, and whether the node is to be skipped
  unfoldable pub take_results : Cell → IntentContext × Results → W → Called E W (Cell × Bool)
  take_results cell (context, results) world = (
    ok (
      then_cell cell cell.other
          (record { original = context.state; other = other_state (chosen context results) }),
      context.skip_execution,
    ),
    world,
  )

  unfoldable pub execute_intents :
      IntentRegistry E W → List String → LifecycleHook → Cell → W → Called E W (Cell × Bool)
  execute_intents intents [] hook cell world = (ok (cell, false), world)
  execute_intents intents (name ∷ names) hook cell world =
      and_then
        (execute_multiple intents (name ∷ names)
          (record {
            operation = value hook;
            state = result_of cell;
            skip_execution = false;
            result = none;
          })
          [] world)
        (take_results cell)

  -- a call that gets the state of the context
  unfoldable pub call_on : (State → W → Called E W Cell) → Cell → W → Called E W Cell
  call_on method cell world =
      and_then (method (result_of cell) world)
        (λ after world. (ok (then_cell cell cell.other after), world))

  unfoldable pub call_route : Node E W → State → W → Called E W Cell
  call_route node state world = and_then (node.route state world) (λ (after, next_node) world.
      (ok (same (set "next_node" (name_or_null next_node) after)), world))

  unfoldable pub call_node_method : Node E W → String → Bool → Cell → W → Called E W Cell
  call_node_method node method_name skip cell world =
      if method_name == "execute"
      then (if skip then (ok cell, world) else call_on node.execute cell world)
      else if method_name == "route"
      then call_on (call_route node) cell world
      else elim (Dict.get method_name node.methods) [
        | none ↦ (ok cell, world)
        | some method ↦ call_on method cell world
      ]

  unfoldable pub run_intents :
      IntentRegistry E W
      → Node E W
      → LifecycleHook
      → HookConfig
      → NodeLifecycleContext
      → W
      → Called E W NodeLifecycleContext
  run_intents intents node hook config context world =
      if config.execute_intents
      then and_then (execute_intents intents (intents_of hook config node) hook context.state world)
          (λ marked world. (ok (mark_skip hook context.skip_execution marked), world))
      else (ok context, world)

  unfoldable pub run_method :
      Node E W → Option String → NodeLifecycleContext → W → Called E W NodeLifecycleContext
  run_method node none context world = (ok context, world)
  run_method node (some method_name) context world =
      if method_name == ""
      then (ok context, world)
      else and_then (call_node_method node method_name context.skip_execution context.state world)
          (λ cell world.
            (ok (record { state = cell; skip_execution = context.skip_execution }), world))

  unfoldable pub run_hook :
      IntentRegistry E W
      → Node E W
      → LifecycleHook
      → HookConfig
      → NodeLifecycleContext
      → W
      → Called E W NodeLifecycleContext
  run_hook intents node hook config context world =
      if config.enabled
      then and_then (run_intents intents node hook config context world)
          (run_method node config.node_method)
      else (ok context, world)

  unfoldable pub execute_hook :
      IntentRegistry E W
      → List HookConfig
      → Node E W
      → LifecycleHook
      → NodeLifecycleContext
      → W
      → Called E W NodeLifecycleContext
  execute_hook intents configs node hook context world = elim (get_hook_config hook configs) [
    | none ↦ (ok context, world)
    | some config ↦ run_hook intents node hook config context world
  ]

  -- `BaseLifecycleExecutor.execute`; `should_skip` is not overridden
  unfoldable pub execute_hooks :
      IntentRegistry E W
      → List HookConfig
      → Node E W
      → List LifecycleHook
      → NodeLifecycleContext
      → W
      → Called E W NodeLifecycleContext
  execute_hooks intents configs node [] context world = (ok context, world)
  execute_hooks intents configs node (hook ∷ hooks) context world =
      and_then (execute_hook intents configs node hook context world)
        (execute_hooks intents configs node hooks)

  unfoldable pub execute_with_node :
      IntentRegistry E W → List HookConfig → Node E W → State → W → Called E W Cell
  execute_with_node intents configs node state world =
      and_then
        (execute_hooks intents configs node (get_hooks configs)
          (record { state = same state; skip_execution = false }) world)
        (λ context world. (ok context.state, world))
