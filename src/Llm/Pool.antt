-- ===== src/Llm/Pool.antt =====
-- `LLMPool.invoke` and `_invoke_sequential` of llm/llm_pool.py with the strategies of llm/pool. The clients are
-- different objects, named by their places; a request to a client is a parameter that acts on a world or
-- raises. Requests follow one another: waiting for a semaphore is left out.
pub mod Loads
pub mod Choice
mod Tests
use Prim.Native.Nat.{◌%◌}
use optorch.Base.{
  ℕ, zero, suc, ◌+◌, ◌-◌, String, List, [], ◌∷◌, ◌++◌, Option, none, some, Bool, true, false,
  Outcome, ok, raise, leb, nat_eq, length, if◌then◌else◌, ◌==◌,
}
use optorch.Base.Dict
use optorch.Base.Dict.{Dict}

pub record Client : Type 0 where
  pub model : String
  pub tpm_limit : ℕ
  pub active_requests : ℕ

pub data Strategy : Type 0 where
  -- `index`
  round_robin : ℕ → Strategy
  least_busy : Strategy
  -- `weights` and `index`
  weighted : Dict ℕ → ℕ → Strategy

pub record Pool : Type 0 where
  pub clients : List Client
  pub strategy : Strategy

-- the place of the first client with the fewest active requests, and their number, from the client at a
-- place on
unfoldable pub lighter : ℕ → ℕ → Option (ℕ × ℕ) → ℕ × ℕ
lighter place load none = (place, load)
lighter place load (some (other, least)) = if leb load least then (place, load) else (other, least)

unfoldable pub least : ℕ → List Client → Option (ℕ × ℕ)
least place [] = none
least place (client ∷ clients) =
    some (lighter place client.active_requests (least (place + 1) clients))

unfoldable pub place_of : Option (ℕ × ℕ) → Option ℕ
place_of none = none
place_of (some (place, load)) = some place

unfoldable pub times : ℕ → ℕ → List ℕ
times zero place = []
times (suc n) place = place ∷ times n place

-- `client.model or "default"`
abbrev pub model_of : Client → String
model_of client = if client.model == "" then "default" else client.model

-- `weighted_clients`, by places
unfoldable pub weighted_clients : Dict ℕ → ℕ → List Client → List ℕ
weighted_clients weights place [] = []
weighted_clients weights place (client ∷ clients) =
    times (Dict.get_or (model_of client) 1 weights) place
    ++ weighted_clients weights (place + 1) clients

unfoldable pub item : {A : Type 0} → ℕ → List A → Option A
item n [] = none
item zero (x ∷ xs) = some x
item (suc n) (x ∷ xs) = item n xs

-- the place of the client, and the strategy afterwards; `none` where Python raises
unfoldable pub select_client : Strategy → List Client → Option ℕ × Strategy
select_client (round_robin index) [] = (none, round_robin index)
select_client (round_robin index) (client ∷ clients) =
    (some (index % length (client ∷ clients)), round_robin (index + 1))
select_client least_busy clients = (place_of (least 0 clients), least_busy)
select_client (weighted weights index) clients = elim (weighted_clients weights 0 clients) [
  | [] ↦ (none, weighted weights index)
  | place ∷ places ↦
      (item (index % length (place ∷ places)) (place ∷ places), weighted weights (index + 1))
]

abbrev pub begin : Client → Client
begin client = record client { active_requests = client.active_requests + 1 }

abbrev pub end : Client → Client
end client = record client { active_requests = client.active_requests - 1 }

-- a change of the client at a place
unfoldable pub change : (Client → Client) → ℕ → List Client → List Client
change f place [] = []
change f zero (client ∷ clients) = f client ∷ clients
change f (suc place) (client ∷ clients) = client ∷ change f place clients

pub data Failure (E : Type 0) : Type 0 where
  no_selection : Failure E
  raised : E → Failure E

module _ {E W M R : Type 0} (request : ℕ → List Client → M → W → Outcome E R × W) where
  abbrev pub or_raised : Outcome E R → Outcome (Failure E) R
  or_raised (ok response) = ok response
  or_raised (raise error) = raise (raised error)

  -- the count is put back in any case
  unfoldable pub finished :
      ℕ → List Client → Strategy → Outcome E R × W → Outcome (Failure E) R × Pool × W
  finished place clients strategy (outcome, world) =
      (or_raised outcome, record { clients = change end place clients; strategy = strategy }, world)

  unfoldable pub invoke_at : Option ℕ × Strategy → M → Pool → W → Outcome (Failure E) R × Pool × W
  invoke_at (none, strategy) messages pool world =
      (raise no_selection, record pool { strategy = strategy }, world)
  invoke_at (some place, strategy) messages pool world =
      let busy = change begin place pool.clients in
      finished place busy strategy (request place busy messages world)

  unfoldable pub invoke : M → Pool → W → Outcome (Failure E) R × Pool × W
  invoke messages pool world =
      invoke_at (select_client pool.strategy pool.clients) messages pool world

  abbrev pub Batch : Type 0
  Batch = Outcome (Failure E) (List R) × Pool × W

  abbrev pub with_result : R → Batch → Batch
  with_result response (ok responses, pool, world) = (ok (response ∷ responses), pool, world)
  with_result response (raise failure, pool, world) = (raise failure, pool, world)

  unfoldable pub then_rest : Outcome (Failure E) R × Pool × W → (Pool → W → Batch) → Batch
  then_rest (ok response, pool, world) rest = with_result response (rest pool world)
  then_rest (raise failure, pool, world) rest = (raise failure, pool, world)

  unfoldable pub invoke_sequential : List M → Pool → W → Batch
  invoke_sequential [] pool world = (ok [], pool, world)
  invoke_sequential (messages ∷ batches) pool world =
      then_rest (invoke messages pool world) (invoke_sequential batches)
