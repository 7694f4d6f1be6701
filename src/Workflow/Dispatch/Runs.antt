-- ===== src/Workflow/Dispatch/Runs.antt =====
-- When a chain of nodes ends.
use optorch.Base.{◌≡◌, refl, ℕ, zero, suc, ◌<◌, ◌≤◌, Bool, String, some, Outcome, ap, ◌∙◌, arith}
use optorch.Workflow.State.{State}
use optorch.Workflow.Retry.{Failure}
use optorch.Workflow.Dispatch.{
  World, NodeController, Visit, finished, onward, visit, go_on, dispatch,
}

-- a call of `dispatch` ends at once, or with the call for the next node
pub data Ends {E W : Type 0} (controller : NodeController E W) (given : Bool)
    : String → State → World W → Outcome (Failure E) State × World W → Type 0 where
  at_once :
      (node_name : String) (state : State) (world : World W) (outcome : Outcome (Failure E) State)
      (after : World W)
      → visit controller given node_name state world ≡ finished outcome after
      → Ends controller given node_name state world (outcome, after)
  by_next :
      (node_name next_node : String) (state result : State) (world between : World W)
      (end : Outcome (Failure E) State × World W)
      → visit controller given node_name state world ≡ onward next_node result between
      → Ends controller given next_node result between end
      → Ends controller given node_name state world end

-- every call with such a state is for a node of a lower rank than the call before, and with such a state again
unfoldable pub Falling :
    {E W : Type 0} → NodeController E W → Bool → (String → ℕ) → (State → Type 0) → Type 0
Falling {W = W} controller given rank Ready =
    (node_name next_node : String) (state result : State) (world between : World W)
    → Ready state
    → visit controller given node_name state world ≡ onward next_node result between
    → (rank next_node < rank node_name) × Ready result

module _ {E W : Type 0} (controller : NodeController E W) (given : Bool) (rank : String → ℕ)
    (Ready : State → Type 0) (falling : Falling controller given rank Ready) where
  unfoldable pub EndsBelow : ℕ → String → State → World W → Type 0
  EndsBelow bound node_name state world =
      (end : Outcome (Failure E) State × World W) × Ends controller given node_name state world end
      × ((fuel : ℕ)
          → bound ≤ fuel
          → dispatch controller given fuel node_name state world ≡ some end)

  -- the call ends, with the same end on any larger fuel
  pub ends_below :
      (bound : ℕ) (node_name : String) (state : State) (world : World W)
      → Ready state
      → rank node_name < bound
      → EndsBelow bound node_name state world
  unfolding dispatch Falling go_on EndsBelow
  ends_below zero node_name state world ready enough = absurd (ground (arith, enough))
  ends_below (suc bound) node_name state world ready enough =
      visited (visit controller given node_name state world) refl (ends_below bound)
    where
      visited :
          (v : Visit E W)
          → visit controller given node_name state world ≡ v
          → ((next : String) (s : State) (w : World W)
              → Ready s
              → rank next < bound
              → EndsBelow bound next s w)
          → EndsBelow (suc bound) node_name state world
      visited (finished outcome after) e again =
          ((outcome, after), at_once node_name state world outcome after e, runs)
        where
          runs :
              (fuel : ℕ)
              → suc bound ≤ fuel
              → dispatch controller given fuel node_name state world ≡ some (outcome, after)
          runs zero more = absurd (ground (arith, more))
          runs (suc fuel) more = ap (λ (v : Visit E W). go_on v (dispatch controller given fuel)) e
      visited (onward next_node result between) e again =
          let (falls, next_ready) =
            falling node_name next_node state result world between ready e in
          let (end, ends, runs) =
            again next_node result between next_ready (ground (arith, enough, falls)) in
          (end, by_next node_name next_node state result world between end e ends, later end runs)
        where
          later :
              (end : Outcome (Failure E) State × World W)
              → ((fuel : ℕ)
                  → bound ≤ fuel
                  → dispatch controller given fuel next_node result between ≡ some end)
              → (fuel : ℕ) → suc bound ≤ fuel
              → dispatch controller given fuel node_name state world ≡ some end
          later end runs zero more = absurd (ground (arith, more))
          later end runs (suc fuel) more =
              ap (λ (v : Visit E W). go_on v (dispatch controller given fuel)) e
              ∙ runs fuel (ground (arith, more))
