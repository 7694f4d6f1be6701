-- ===== src/Base/Outcomes.antt =====
-- A call that returns or raises. `E` is what may be raised.

pub data Outcome {ℓ} (E A : Type ℓ) : Type ℓ where
  ok : A → Outcome E A
  raise : E → Outcome E A

-- The next step runs only if the first returned.
infixl 5 ◌>>=◌
abbrev pub ◌>>=◌ {ℓ} : {E A B : Type ℓ} → Outcome E A → (A → Outcome E B) → Outcome E B
(raise problem) >>= next = raise problem
(ok value) >>= next = next value
