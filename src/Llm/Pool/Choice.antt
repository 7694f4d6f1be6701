-- ===== src/Llm/Pool/Choice.antt =====
-- The client that the strategy of the least busy one selects.
use optorch.Base.{
  ◌≡◌, ◌≢◌, refl, sym, subst, ℕ, suc, ◌+◌, ◌≤◌, List, [], ◌∷◌, Option, none, some, leb, if_both,
  All, arith,
}
use optorch.Llm.Pool.{Client, least_busy, lighter, least, place_of, item, select_client}

abbrev pub AreAbove : ℕ → List Client → Type 0
AreAbove load clients = All (λ (c : Client). load ≤ c.active_requests) clients

AreAbove-below : (m n : ℕ) (clients : List Client) → m ≤ n → AreAbove n clients → AreAbove m clients
AreAbove-below m n [] h above = tt
AreAbove-below m n (client ∷ clients) h above =
    (omega (arith, h, above.0), AreAbove-below m n clients h above.1)

-- the place and the load of a client that no other falls below, in a list that begins at `place`
abbrev IsLeast : ℕ → List Client → Option (ℕ × ℕ) → Type 0
IsLeast place clients none = clients ≡ []
IsLeast place clients (some (p, load)) =
    (k : ℕ) × (p ≡ place + k)
    × (client : Client) × (item k clients ≡ some client)
    × (client.active_requests ≡ load)
    × AreAbove load clients

lighter-IsLeast :
    (place : ℕ) (client : Client) (clients : List Client) (o : Option (ℕ × ℕ))
    → IsLeast (place + 1) clients o
    → IsLeast place (client ∷ clients) (some (lighter place client.active_requests o))
unfolding lighter item
lighter-IsLeast place client clients none empty = (
  0,
  omega arith,
  client,
  refl,
  refl,
  (omega arith, subst (AreAbove client.active_requests) (sym empty) tt),
)
lighter-IsLeast place client clients (some (other, low)) (k, e, found, at, load, above) =
    if_both (λ (r : ℕ × ℕ). IsLeast place (client ∷ clients) (some r))
      (leb client.active_requests low) _ _
      (λ h. (
        0,
        omega arith,
        client,
        refl,
        refl,
        (omega arith, AreAbove-below client.active_requests low clients (ground (arith, h)) above),
      ))
      (λ h. (suc k, omega (arith, e), found, at, load, (ground (arith, h), above)))

least-IsLeast : (place : ℕ) (clients : List Client) → IsLeast place clients (least place clients)
unfolding least
least-IsLeast place [] = refl
least-IsLeast place (client ∷ clients) =
    lighter-IsLeast place client clients (least (place + 1) clients)
      (least-IsLeast (place + 1) clients)

-- In a pool with clients, the strategy of the least busy client selects a client of the pool, and no client has
-- fewer active requests.
pub select_client-least :
    (clients : List Client)
    → clients ≢ []
    → (place : ℕ) × (client : Client) × (select_client least_busy clients
        ≡ (some place, least_busy))
      × (item place clients ≡ some client)
      × AreAbove client.active_requests clients
unfolding select_client place_of
select_client-least clients some_client = go (least 0 clients) refl (least-IsLeast 0 clients)
  where
    go :
        (o : Option (ℕ × ℕ))
        → least 0 clients ≡ o
        → IsLeast 0 clients o
        → (place : ℕ) × (client : Client) × (select_client least_busy clients
            ≡ (some place, least_busy))
          × (item place clients ≡ some client)
          × AreAbove client.active_requests clients
    go none e empty = absurd (some_client empty)
    go (some (p, load)) e (k, at, client, found, has, above) = (
      k,
      client,
      rw e (rw (place at) refl),
      found,
      subst (λ n. AreAbove n clients) (sym has) above,
    )
      where
        place : p ≡ 0 + k → p ≡ k
        place h = omega (arith, h)
