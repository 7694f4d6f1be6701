-- ===== src/Llm/Pool/Loads.antt =====
-- The numbers of active requests: they are put back, and the least busy client is chosen by them.
use optorch.Base.{
  ◌≡◌, refl, ap, ◌∙◌, ℕ, zero, suc, ◌+◌, ◌-◌, List, [], ◌∷◌, Option, none, some, Outcome, ok, raise,
  arith,
}
use optorch.Llm.Pool.{
  Client, Strategy, Pool, Failure, select_client, begin, end, change, finished, invoke_at, invoke,
  Batch, with_result, then_rest, invoke_sequential,
}

end-begin : (client : Client) → end (begin client) ≡ client
end-begin client =
    ap (λ (n : ℕ). record client { active_requests = n }) (back client.active_requests)
  where
    back : (n : ℕ) → (n + 1) - 1 ≡ n
    back n = omega arith

change-change :
    (place : ℕ) (clients : List Client) → change end place (change begin place clients) ≡ clients
unfolding change
change-change place [] = refl
change-change zero (client ∷ clients) = ap (λ (c : Client). c ∷ clients) (end-begin client)
change-change (suc place) (client ∷ clients) = ap (λ l. client ∷ l) (change-change place clients)

module _ {E W M R : Type 0} (request : ℕ → List Client → M → W → Outcome E R × W) where
  invoke-clients :
      (messages : M) (pool : Pool) (world : W)
      → (invoke request messages pool world).1.clients ≡ pool.clients
  unfolding invoke invoke_at finished
  invoke-clients messages pool world = go (select_client pool.strategy pool.clients)
    where
      go :
          (s : Option ℕ × Strategy)
          → (invoke_at request s messages pool world).1.clients ≡ pool.clients
      go (none, strategy) = refl
      go (some place, strategy) = change-change place pool.clients

-- After requests one after the other, the numbers of active requests of all clients are those of before, also
-- when a request raised in the midst.
pub invoke_sequential-clients :
    {E W M R : Type 0} (request : ℕ → List Client → M → W → Outcome E R × W) (batches : List M)
    (pool : Pool) (world : W)
    → (invoke_sequential request batches pool world).1.clients ≡ pool.clients
unfolding invoke_sequential then_rest
invoke_sequential-clients request [] pool world = refl
invoke_sequential-clients {E} {W} {M} {R} request (messages ∷ batches) pool world =
    go (invoke request messages pool world) (invoke-clients request messages pool world)
      (invoke_sequential-clients request batches)
  where
    kept :
        (response : R) (b : Batch request)
        → (with_result request response b).1.clients ≡ b.1.clients
    kept response (ok responses, p, w) = refl
    kept response (raise failure, p, w) = refl

    go :
        (r : Outcome (Failure E) R × Pool × W)
        → r.1.clients ≡ pool.clients
        → ((p : Pool) (w : W) → (invoke_sequential request batches p w).1.clients ≡ p.clients)
        → (then_rest request r (invoke_sequential request batches)).1.clients ≡ pool.clients
    go (ok response, p, w) e rest =
        kept response (invoke_sequential request batches p w) ∙ rest p w ∙ e
    go (raise failure, p, w) e rest = e
