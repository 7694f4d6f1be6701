-- ===== src/Authentication/RateLimiter/Deques.antt =====
-- The deques of attempts: dropping attempts from the front keeps exactly those in the window, since
-- a deque is in the order of time.
use optorch.Base.{
  ℕ, ◌+◌, ◌≤◌, ◌≡◌, refl, true, false, String, List, [], ◌∷◌, ◌++◌, none, some, ltb, if◌then◌else◌,
  keep, arith, All, if_both, Bool-cases, inl, inr, ◌==◌, keep-All,
}
use optorch.Base.Dict
use optorch.Base.Dict.{Dict}
use optorch.Authentication.RateLimiter.{deque_of, drop_expired, in_window}

abbrev pub Ascending : List ℕ → Type 0
Ascending [] = Unit
Ascending (t ∷ ts) = All (λ u. t ≤ u) ts × Ascending ts

pub All-drop_expired {κ} :
    (P : ℕ → Type κ) (window now : ℕ) (ts : List ℕ) → All P ts → All P (drop_expired window now ts)
unfolding drop_expired
All-drop_expired P window now [] h = tt
All-drop_expired P window now (t ∷ ts) h =
    if_both (All P) (ltb (t + window) now) _ _ (λ _. All-drop_expired P window now ts h.1) (λ _. h)

pub drop_expired-Ascending :
    (window now : ℕ) (ts : List ℕ) → Ascending ts → Ascending (drop_expired window now ts)
unfolding drop_expired
drop_expired-Ascending window now [] h = tt
drop_expired-Ascending window now (t ∷ ts) h =
    if_both Ascending (ltb (t + window) now) _ _ (λ _. drop_expired-Ascending window now ts h.1)
      (λ _. h)

pub later_in_window :
    (window now t : ℕ) (ts : List ℕ)
    → now ≤ t + window
    → All (λ u. t ≤ u) ts
    → All (λ u. in_window window now u ≡ true) ts
later_in_window window now t [] h late = tt
later_in_window window now t (u ∷ ts) h late =
    (ground (arith, late.0), later_in_window window now t ts h late.1)

pub drop_expired-eq-keep :
    (window now : ℕ) (ts : List ℕ)
    → Ascending ts
    → drop_expired window now ts ≡ keep (in_window window now) ts
unfolding drop_expired keep
drop_expired-eq-keep window now [] h = refl
drop_expired-eq-keep window now (t ∷ ts) h = elim (Bool-cases (ltb (t + window) now)) [
  | inl old ↦ ground (arith, drop_expired-eq-keep window now ts h.1)
  | inr young ↦
      let rest : keep (in_window window now) ts ≡ ts =
        keep-All (in_window window now) ts (later_in_window window now t ts (ground arith) h.0) in
      ground arith
]

-- An ordered deque of attempts none of which is later than `now`.
abbrev pub IsOrdered : ℕ → List ℕ → Type 0
IsOrdered now ts = Ascending ts × All (λ t. t ≤ now) ts

pub All-le_mono :
    {now later : ℕ} (ts : List ℕ) → now ≤ later → All (λ t. t ≤ now) ts → All (λ t. t ≤ later) ts
All-le_mono [] le h = tt
All-le_mono (t ∷ ts) le h = (omega arith, All-le_mono ts le h.1)

pub All-snoc {κ} : (P : ℕ → Type κ) (ts : List ℕ) (t : ℕ) → All P ts → P t → All P (ts ++ t ∷ [])
All-snoc P [] t h p = (p, tt)
All-snoc P (u ∷ ts) t h p = (h.0, All-snoc P ts t h.1 p)

pub Ascending-snoc :
    (ts : List ℕ) (t : ℕ) → Ascending ts → All (λ u. u ≤ t) ts → Ascending (ts ++ t ∷ [])
Ascending-snoc [] t h p = (tt, tt)
Ascending-snoc (u ∷ ts) t h p = (All-snoc (λ v. u ≤ v) ts t h.0 p.0, Ascending-snoc ts t h.1 p.1)

module _ {now later : ℕ} (le : now ≤ later) where
  pub IsOrdered-snoc : (ts : List ℕ) → IsOrdered now ts → IsOrdered later (ts ++ later ∷ [])
  IsOrdered-snoc ts h =
      let past = All-le_mono ts le h.1 in
      (Ascending-snoc ts later h.0 past, All-snoc (λ t. t ≤ later) ts later past (omega arith))

  pub IsOrdered-drop_expired :
      (window : ℕ) (ts : List ℕ) → IsOrdered now ts → IsOrdered later (drop_expired window later ts)
  IsOrdered-drop_expired window ts h = (
    drop_expired-Ascending window later ts h.0,
    All-drop_expired (λ t. t ≤ later) window later ts (All-le_mono ts le h.1),
  )

  pub IsOrdered-later : (ts : List ℕ) → IsOrdered now ts → IsOrdered later ts
  IsOrdered-later ts h = (h.0, All-le_mono ts le h.1)

module _ {κ} (P : List ℕ → Type κ) (j identifier : String) (d : Dict (List ℕ)) where
  pub deque_of-insert :
      (ts : List ℕ) → P ts → P (deque_of j d) → P (deque_of j (Dict.insert identifier ts d))
  deque_of-insert ts new old =
      rw (Dict.get-insert identifier j ts d, deque_of)
        (elim (identifier == j)
          as (λ b. P (elim (if b then some ts else Dict.get j d) [ none ↦ [] | some us ↦ us ])) [
            | true ↦ new
            | false ↦ old
          ])

  pub deque_of-erase : P [] → P (deque_of j d) → P (deque_of j (Dict.erase identifier d))
  deque_of-erase new old =
      rw (Dict.get-erase identifier j d, deque_of)
        (elim (identifier == j)
          as (λ b. P (elim (if b then none else Dict.get j d) [ none ↦ [] | some us ↦ us ])) [
            | true ↦ new
            | false ↦ old
          ])
