-- ===== src/Resilience/Backoff.antt =====
-- storage/resilience/strategies/retry.py. The delays are floats in the source: their type, their
-- product and their minimum are parameters, and so is what happens in the world during a sleep.
mod Tests
use optorch.Base.{
  ℕ, zero, suc, ◌≤◌, ◌<◌, ◌≡◌, refl, Bool, true, false, Outcome, ok, raise, arith, if◌then◌else◌,
}

-- `RetryConfig` of storage/config.py
pub record RetryConfig (D : Type 0) : Type 0 where
  pub enabled : Bool
  pub max_retries : ℕ
  pub initial_delay : D
  pub max_delay : D
  pub exponential_base : D

module _ {D W E A : Type 0} (product least : D → D → D) (sleep : D → W → W) (config : RetryConfig D)
    (func : W → Outcome E A × W) where
  pub next_delay : D → D
  next_delay delay = least (product delay config.exponential_base) config.max_delay

  -- The loop, by the number of retries that are left.
  unfoldable pub attempts : ℕ → D → W → Outcome E A × W
  attempts zero delay w = func w
  attempts (suc retries) delay w =
      let again = attempts retries (next_delay delay) (sleep delay (func w).1) in
      elim (func w).0 [ ok a ↦ func w | raise e ↦ again ]

  unfoldable pub execute : W → Outcome E A × W
  execute w = if config.enabled then attempts config.max_retries config.initial_delay w else func w

  -- The delay before retry `k + 1`.
  unfoldable pub backoff : D → ℕ → D
  backoff delay zero = delay
  backoff delay (suc k) = backoff (next_delay delay) k

  -- The world in which attempt `k` is made, if all attempts before it failed.
  unfoldable pub world_at : D → ℕ → W → W
  world_at delay zero w = w
  world_at delay (suc k) w = world_at (next_delay delay) k (sleep delay (func w).1)

  abbrev pub Fails : W → Type 0
  Fails w = (e : E) × ((func w).0 ≡ raise e)

  -- Attempt `k + 1` comes after attempt `k` and a sleep of the backoff delay.
  pub world_at-suc :
      (delay : D) (k : ℕ) (w : W)
      → world_at delay (suc k) w ≡ sleep (backoff delay k) (func (world_at delay k w)).1
  unfolding world_at backoff
  world_at-suc delay zero w = refl
  world_at-suc delay (suc k) w = world_at-suc (next_delay delay) k (sleep delay (func w).1)

  attempts_success :
      (retries k : ℕ) (delay : D) (w : W) (a : A)
      → k ≤ retries
      → ((j : ℕ) → j < k → Fails (world_at delay j w))
      → (func (world_at delay k w)).0 ≡ ok a
      → attempts retries delay w ≡ func (world_at delay k w)
  unfolding attempts world_at
  attempts_success zero zero delay w a fits fails done = refl
  attempts_success (suc retries) zero delay w a fits fails done = ground arith
  attempts_success zero (suc k) delay w a fits fails done = absurd (omega arith)
  attempts_success (suc retries) (suc k) delay w a fits fails done =
      let rest =
        attempts_success retries k (next_delay delay) (sleep delay (func w).1) a (omega arith)
          (λ j h. fails (suc j) (omega arith)) done in
      let (e, failed) = fails 0 (omega arith) in ground (arith, rest)

  attempts_exhausted :
      (retries : ℕ) (delay : D) (w : W)
      → ((j : ℕ) → j < retries → Fails (world_at delay j w))
      → attempts retries delay w ≡ func (world_at delay retries w)
  unfolding attempts world_at
  attempts_exhausted zero delay w fails = refl
  attempts_exhausted (suc retries) delay w fails =
      let rest =
        attempts_exhausted retries (next_delay delay) (sleep delay (func w).1)
          (λ j h. fails (suc j) (omega arith)) in
      let (e, failed) = fails 0 (omega arith) in ground (arith, rest)

  -- If attempt `k` is the first to succeed and `k` is at most `max_retries`, its value is returned,
  -- and the world is the one it left: no later attempt is made.
  pub execute-first_success :
      (k : ℕ) (w : W) (a : A)
      → config.enabled ≡ true
      → k ≤ config.max_retries
      → ((j : ℕ) → j < k → Fails (world_at config.initial_delay j w))
      → (func (world_at config.initial_delay k w)).0 ≡ ok a
      → execute w ≡ (ok a, (func (world_at config.initial_delay k w)).1)
  unfolding execute
  execute-first_success k w a on fits fails done =
      ground (arith, attempts_success config.max_retries k config.initial_delay w a fits fails done)

  -- If the first `max_retries` attempts fail, the last one decides: its value is returned or its
  -- exception is raised.
  pub execute-exhausted :
      (w : W)
      → config.enabled ≡ true
      → ((j : ℕ) → j < config.max_retries → Fails (world_at config.initial_delay j w))
      → execute w ≡ func (world_at config.initial_delay config.max_retries w)
  unfolding execute
  execute-exhausted w on fails =
      ground (arith, attempts_exhausted config.max_retries config.initial_delay w fails)
