-- ===== src/Workflow/Dispatch/Context.antt =====
-- What `dispatch` leaves in the context that the caller shares with the nodes.
use optorch.Base.{
  ◌≡◌, refl, ℕ, zero, suc, true, String, none, some, Outcome, ok, raise, ◌==◌, if_both, sym, ap,
  ◌∙◌, arith,
}
use optorch.Base.Dict
use optorch.Workflow.State.{Value, null, text, flag, object, State, has}
use optorch.Workflow.Retry.{Failure}
use optorch.Workflow.Dispatch.{
  NodeContext, World, NodeController, Visit, finished, onward, proceed, follow, after_node, leave,
  restore_context, visit_node, visit, go_on, dispatch,
}
use mathlib.Core.Option.{some-injective}

abbrev Result : Type 0 → Type 0 → Type 0
Result E W = Outcome (Failure E) State × World W

-- the call goes on, or ends, with this context
KeepsContext : {E W : Type 0} → NodeContext → Visit E W → Type 0
KeepsContext previous (finished outcome world) = world.context ≡ previous
KeepsContext previous (onward next_node result world) = world.context ≡ previous

module _ (E : Type 0) {W : Type 0} (previous : NodeContext) where
  proceed-KeepsContext :
      (next_node : Value) (result : State) (world : World W)
      → world.context ≡ previous
      → KeepsContext previous (proceed {E = E} next_node result world)
  unfolding proceed KeepsContext
  proceed-KeepsContext null result world kept = kept
  proceed-KeepsContext (text name) result world kept =
      if_both (KeepsContext previous) (name == "") _ _ (λ _. kept) (λ _. kept)
  proceed-KeepsContext (flag b) result world kept =
      if_both (KeepsContext previous) b _ _ (λ _. kept) (λ _. kept)
  proceed-KeepsContext (object b name) result world kept =
      if_both (KeepsContext previous) b _ _ (λ _. kept) (λ _. kept)

module _ {E W : Type 0} (previous : NodeContext) where
  follow-KeepsContext :
      (next : Outcome (Failure E) Value) (result : State) (world : World W)
      → world.context ≡ previous
      → KeepsContext previous (follow next result world)
  unfolding follow KeepsContext
  follow-KeepsContext (raise error) result world kept = kept
  follow-KeepsContext (ok next_node) result world kept =
      if_both (KeepsContext previous) (has "_retry_fallback" result) _ _
        (λ _. proceed-KeepsContext E previous _ _ world kept)
        (λ _. proceed-KeepsContext E previous _ _ world kept)

  leave-KeepsContext :
      (controller : NodeController E W) (node_name : String) (result : Result E W)
      → KeepsContext previous (leave controller node_name true previous result)
  unfolding leave after_node restore_context KeepsContext
  leave-KeepsContext controller node_name (raise error, world) = refl
  leave-KeepsContext controller node_name (ok result, world) = follow-KeepsContext _ result _ refl

visit-KeepsContext :
    {E W : Type 0} (controller : NodeController E W) (node_name : String) (state : State)
    (world : World W)
    → KeepsContext world.context (visit controller true node_name state world)
unfolding visit visit_node KeepsContext
visit-KeepsContext controller node_name state world = found (Dict.get node_name controller.nodes)
  where
    found :
        (node : _)
        → KeepsContext world.context (visit_node controller node_name true node state world)
    found none = refl
    found (some node) = leave-KeepsContext world.context controller node_name _

-- However a chain of nodes ends that was dispatched with a context, with a result or with an exception, and whatever
-- the nodes did to the context: the names of the current node and phase in it are those from before the call.
pub dispatch_context :
    {E W : Type 0} (controller : NodeController E W) (fuel : ℕ) (node_name : String) (state : State)
    (world : World W) (outcome : Outcome (Failure E) State) (after : World W)
    → dispatch controller true fuel node_name state world ≡ some (outcome, after)
    → after.context ≡ world.context
unfolding dispatch go_on KeepsContext
dispatch_context controller zero node_name state world outcome after e = ground (arith, e)
dispatch_context {E = E} {W = W} controller (suc fuel) node_name state world outcome after e =
    ended (visit controller true node_name state world)
      (visit-KeepsContext controller node_name state world)
      (λ next s w. dispatch_context controller fuel next s w outcome after) e
  where
    ended :
        (v : Visit E W)
        → KeepsContext world.context v
        → ((next : String) (s : State) (w : World W)
            → dispatch controller true fuel next s w ≡ some (outcome, after)
            → after.context ≡ w.context)
        → go_on v (dispatch controller true fuel) ≡ some (outcome, after)
        → after.context ≡ world.context
    ended (finished o w) kept later e =
        ap (λ (r : Result E W). r.1.context) (sym (some-injective _ _ e)) ∙ kept
    ended (onward next_node result w) kept later e = later next_node result w e ∙ kept
