-- ===== src/Workflow/Lifecycle/Hooks.antt =====
-- The sequence of hooks that applies without a configuration.
use optorch.Base.{
  ◌≡◌, refl, Bool, true, false, String, List, [], ◌∷◌, Option, none, some, ok, raise, sym, ap,
  subst, ◌∙◌, arith,
}
use optorch.Workflow.State.{State, get, set, get-set, Cell, result_of, same, then_cell}
use optorch.Workflow.Intents.{IntentRegistry}
use optorch.Workflow.Lifecycle.{
  LifecycleHook, pre_dispatch, execute, post_dispatch, route, value, default_hooks,
  build_hooks_config, get_hooks, get_hook_config, Called, Node, NodeLifecycleContext, and_then,
  name_or_null, mark_skip, intents_of, execute_intents, call_on, call_route, call_node_method,
  run_intents, run_method, run_hook, execute_hook, execute_hooks, execute_with_node,
}

-- a call that follows another one returned, so both did
and_then-ok :
    {E W A B : Type 0} (call : Called E W A) (next : A → W → Called E W B) (b : B) (after : W)
    → and_then call next ≡ (ok b, after)
    → (a : A) × (between : W) × (call ≡ (ok a, between)) × (next a between ≡ (ok b, after))
and_then-ok (raise error, world) next b after e = absurd (ground (arith, ap (λ r. r.0) e))
and_then-ok (ok a, world) next b after e = (a, world, refl, e)

result_of-then_cell : (cell : Cell) (s : State) → result_of (then_cell cell cell.other (same s)) ≡ s
unfolding then_cell
result_of-then_cell cell s = by_other cell.other
  where
    by_other : (other : Option State) → result_of (then_cell cell other (same s)) ≡ s
    by_other none = refl
    by_other (some state) = refl

-- the same node with another method `execute`
pub with_execute : {E W : Type 0} → (State → W → Called E W Cell) → Node E W → Node E W
with_execute method node = record {
  pre_intents = node.pre_intents;
  post_intents = node.post_intents;
  execute = method;
  route = node.route;
  methods = node.methods;
}

-- Where an intent before the dispatch asks to skip the node, its method `execute` is not called: another one in its
-- place makes no difference to what the lifecycle returns or raises, nor to what it does.
pub execute_with_node-with_execute :
    {E W : Type 0} (intents : IntentRegistry E W) (node : Node E W)
    (method : State → W → Called E W Cell) (state : State) (world between : W) (cell : Cell)
    → execute_intents intents
        ("create_llm_context" ∷ node.pre_intents)
        pre_dispatch
        (same state)
        world
      ≡ (ok (cell, true), between)
    → execute_with_node intents (build_hooks_config []) (with_execute method node) state world
      ≡ execute_with_node intents (build_hooks_config []) node state world
unfolding execute_with_node build_hooks_config get_hooks get_hook_config value execute_hooks
    execute_hook run_hook run_intents run_method mark_skip intents_of call_node_method with_execute
    call_on call_route
execute_with_node-with_execute {E = E} {W = W} intents node method state world between cell
      skipped =
    ap (from_intents (with_execute method node)) skipped ∙ sym (ap (from_intents node) skipped)
  where
    from_intents : Node E W → Called E W (Cell × Bool) → Called E W Cell
    from_intents node marked =
        and_then
          (and_then
            (and_then (and_then marked (λ m w. (ok (mark_skip pre_dispatch false m), w)))
              (run_method node none))
            (execute_hooks intents default_hooks node (execute ∷ post_dispatch ∷ route ∷ [])))
          (λ context w. (ok context.state, w))

ok-parts :
    {E W A : Type 0} (a b : A) (world after : W)
    → Path (Called E W A) (ok a, world) (ok b, after)
    → (a ≡ b) × (world ≡ after)
ok-parts {E = E} {W = W} {A = A} a b world after e = (ap of e, ap (λ (r : Called E W A). r.1) e)
  where
    of : Called E W A → A
    of (ok value, w) = value
    of (raise error, w) = a

module _ {E W : Type 0} (intents : IntentRegistry E W) (node : Node E W) where
  -- the node was asked for the next one, and the entry has its answer
  Routed : W → Cell → Type 0
  Routed after cell =
      (routed : State) × (before : W) × (left : State) × (next_node : Option String) × (node.route
          routed before
        ≡ (ok (left, next_node), after))
      × (get "next_node" (result_of cell) ≡ name_or_null next_node)

  call_route-Routed :
      (context : Cell) (world after : W) (cell : Cell)
      → call_on (call_route node) context world ≡ (ok cell, after)
      → Routed after cell
  unfolding Routed call_on call_route
  call_route-Routed context world after cell = answered (node.route (result_of context) world) refl
    where
      answered :
          (answer : Called E W (State × Option String))
          → node.route (result_of context) world ≡ answer
          → and_then
              (and_then answer (λ (left, next_node) w.
                (ok (same (set "next_node" (name_or_null next_node) left)), w)))
              (λ c w. (ok (then_cell context context.other c), w))
            ≡ (ok cell, after)
          → Routed after cell
      answered (raise error, w) asked e = absurd (ground (arith, ap (λ r. r.0) e))
      answered (ok (left, next_node), w) asked e =
          let (same_cell, same_world) = ok-parts _ _ _ _ e in
          (
            result_of context,
            world,
            left,
            next_node,
            asked ∙ ap (λ v. (ok (left, next_node), v)) same_world,
            ap (λ c. get "next_node" (result_of c)) (sym same_cell)
                ∙ ap (get "next_node")
                    (result_of-then_cell context (set "next_node" (name_or_null next_node) left))
                ∙ get-set "next_node" "next_node" (name_or_null next_node) left,
          )

  later_hooks :
      (hook : LifecycleHook) (hooks : List LifecycleHook) (context : NodeLifecycleContext)
      (world after : W) (last : NodeLifecycleContext)
      → execute_hooks intents default_hooks node (hook ∷ hooks) context world ≡ (ok last, after)
      → (next : NodeLifecycleContext) × (between : W) × (execute_hooks intents default_hooks node
            hooks next between
          ≡ (ok last, after))
  unfolding execute_hooks
  later_hooks hook hooks context world after last e =
      let (next, between, _, others) =
        and_then-ok (execute_hook intents default_hooks node hook context world)
          (execute_hooks intents default_hooks node hooks) last after e in
      (next, between, others)

  route_hook-Routed :
      (context : NodeLifecycleContext) (world after : W) (last : NodeLifecycleContext)
      → execute_hooks intents default_hooks node (route ∷ []) context world ≡ (ok last, after)
      → Routed after last.state
  unfolding execute_hooks execute_hook get_hook_config value run_hook run_intents run_method
      call_node_method
  route_hook-Routed context world after last e =
      let (called, w, ran, ended) = and_then-ok _ _ last after e in
      let (cell, w2, asked, kept) = and_then-ok _ _ called w ran in
      let (same_called, w_eq) = ok-parts called last w after ended in
      let (same_cell, w2_eq) = ok-parts _ called w2 w kept in
      subst (λ c. Routed after c)
        (ap (λ (c : NodeLifecycleContext). c.state) (same_cell ∙ same_called))
        (subst (λ v. Routed v cell) (w2_eq ∙ w_eq)
          (call_route-Routed context.state world w2 cell asked))

-- Without a configuration of the hooks, the state that the lifecycle returns has in the entry "next_node" what the
-- method `route` of the node returned last: an older entry does not outlive the node.
pub get-execute_with_node :
    {E W : Type 0} (intents : IntentRegistry E W) (node : Node E W) (state : State)
    (world after : W) (cell : Cell)
    → execute_with_node intents (build_hooks_config []) node state world ≡ (ok cell, after)
    → (routed : State) × (before : W) × (left : State) × (next_node : Option String) × (node.route
          routed before
        ≡ (ok (left, next_node), after))
      × (get "next_node" (result_of cell) ≡ name_or_null next_node)
unfolding execute_with_node build_hooks_config get_hooks execute_hooks Routed
get-execute_with_node intents node state world after cell e =
    let (last, w0, ran, ended) =
      and_then-ok
        (execute_hooks intents default_hooks node (get_hooks default_hooks)
          (record { state = same state; skip_execution = false }) world)
        (λ context w. (ok context.state, w)) cell after e in
    let (c1, w1, from_execute) =
      later_hooks intents node pre_dispatch (execute ∷ post_dispatch ∷ route ∷ []) _ world w0 last
        ran in
    let (c2, w2, from_post) =
      later_hooks intents node execute (post_dispatch ∷ route ∷ []) c1 w1 w0 last from_execute in
    let (context, w, from_route) =
      later_hooks intents node post_dispatch (route ∷ []) c2 w2 w0 last from_post in
    let (same_cell, same_world) = ok-parts last.state cell w0 after ended in
    subst (λ c. Routed intents node after c) same_cell
      (subst (λ v. Routed intents node v last.state) same_world
        (route_hook-Routed intents node context w w0 last from_route))
