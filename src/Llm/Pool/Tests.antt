-- ===== src/Llm/Pool/Tests.antt =====
-- Pools of two clients. A request fails when the world is 1, and counts up the world.
use optorch.Base.{◌≡◌, refl, ℕ, zero, suc, ◌+◌, List, [], ◌∷◌, Outcome, ok, raise}
use optorch.Llm.Pool.{
  Client, Pool, round_robin, select_client, invoke_sequential, invoke, invoke_at, finished,
  then_rest, change,
}
use optorch.Llm.Pool.Loads.{invoke_sequential-clients}

abbrev client : ℕ → Client
client active_requests = record { model = "m"; tpm_limit = 100; active_requests = active_requests }

abbrev request : ℕ → List Client → ℕ → ℕ → Outcome Unit ℕ × ℕ
request place clients messages zero = (ok place, 1)
request place clients messages (suc world) = (raise tt, world + 2)

abbrev pool : Pool
pool = record { clients = client 2 ∷ client 1 ∷ []; strategy = round_robin 0 }

one_failed : (invoke_sequential request (5 ∷ 6 ∷ 7 ∷ []) pool 0).2 ≡ 2
unfolding invoke_sequential invoke invoke_at finished then_rest select_client change
one_failed = refl

invoke_sequential-clients_example :
    (invoke_sequential request (5 ∷ 6 ∷ 7 ∷ []) pool 0).1.clients ≡ client 2 ∷ client 1 ∷ []
invoke_sequential-clients_example = invoke_sequential-clients request (5 ∷ 6 ∷ 7 ∷ []) pool 0
