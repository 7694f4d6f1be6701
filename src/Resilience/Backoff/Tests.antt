-- ===== src/Resilience/Backoff/Tests.antt =====
-- The retry loop with delays in seconds, in a world that counts the calls and records the sleeps.
use Prim.Native.Nat.{min}
use optorch.Base.{
  ℕ, zero, suc, ◌+◌, ◌*◌, ◌<◌, ◌≡◌, refl, true, String, List, [], ◌∷◌, ◌++◌, Outcome, ok, raise,
  ltb, arith, if◌then◌else◌,
}
use optorch.Resilience.Backoff.{RetryConfig, next_delay, attempts, execute, world_at, Fails}

abbrev World : Type 0
World = ℕ × List ℕ

abbrev config : RetryConfig ℕ
config = record {
  enabled = true;
  max_retries = 3;
  initial_delay = 1;
  max_delay = 3;
  exponential_base = 2;
}

abbrev note_sleep : ℕ → World → World
note_sleep d w = (w.0, w.1 ++ d ∷ [])

-- The store answers from its third call on.
abbrev flaky : World → Outcome String ℕ × World
flaky w = (if ltb w.0 2 then raise "busy" else ok w.0, (w.0 + 1, w.1))

abbrev broken : World → Outcome String ℕ × World
broken w = (raise "down", (w.0 + 1, w.1))

flaky_succeeds : execute ◌*◌ min note_sleep config flaky (0, []) ≡ (ok 2, (3, 1 ∷ 2 ∷ []))
unfolding execute attempts next_delay
flaky_succeeds = refl

broken_sleeps :
    execute ◌*◌ min note_sleep config broken (0, []) ≡ (raise "down", (4, 1 ∷ 2 ∷ 3 ∷ []))
unfolding execute attempts next_delay
broken_sleeps = refl

flaky-Fails :
    (j : ℕ)
    → j < 2
    → Fails ◌*◌ min note_sleep config flaky (world_at ◌*◌ min note_sleep config flaky 1 j (0, []))
unfolding world_at next_delay
flaky-Fails zero h = ("busy", refl)
flaky-Fails (suc zero) h = ("busy", refl)
flaky-Fails (suc (suc j)) h = absurd (omega arith)

third_answers : (flaky (world_at ◌*◌ min note_sleep config flaky 1 2 (0, []))).0 ≡ ok 2
unfolding world_at next_delay
third_answers = refl
