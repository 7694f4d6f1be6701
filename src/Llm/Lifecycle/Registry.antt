-- ===== src/Llm/Lifecycle/Registry.antt =====
-- `register_processor` of llm/lifecycle/executor.py: the list of one phase, sorted by `order`.
use optorch.Base.{
  ℕ, ◌≤◌, ◌<◌, ◌≡◌, refl, Bool, false, ◌||◌, String, List, [], ◌∷◌, ◌++◌, Option, none, some, ltb,
  leb, if◌then◌else◌, ◌==◌, arith, ◌∙◌, All, keep, map, All-append, All-keep_of, Bool-cases, inl,
  inr,
}
use optorch.Llm.Lifecycle.{Processor}

-- `list.sort(key=lambda p: p.order)`, which is stable
insert_by_order : Processor → List Processor → List Processor
insert_by_order p [] = p ∷ []
insert_by_order p (q ∷ qs) = if leb p.order q.order then p ∷ q ∷ qs else q ∷ insert_by_order p qs

unfoldable pub sort_by_order : List Processor → List Processor
unfolding insert_by_order
sort_by_order [] = []
sort_by_order (p ∷ ps) = insert_by_order p (sort_by_order ps)

-- `processor in self._processors[hook]`, by the identity of the object
unfoldable pub registered : Processor → List Processor → Bool
registered p [] = false
registered p (q ∷ qs) = p.name == q.name || registered p qs

-- `processor.order = order` is seen wherever the object stands.
pub set_order : String → ℕ → List Processor → List Processor
set_order name order ps = map (λ q. if name == q.name then record q { order = order } else q) ps

pub append_sorted : Processor → List Processor → List Processor
append_sorted p ps = if registered p ps then ps else sort_by_order (ps ++ p ∷ [])

unfoldable pub register_processor : Processor → Option ℕ → List Processor → List Processor
unfolding append_sorted set_order
register_processor p none ps = append_sorted p ps
register_processor p (some order) ps =
    append_sorted (record p { order = order }) (set_order p.name order ps)

-- The list is in the order in which the processors run.
abbrev pub IsSorted : List Processor → Type 0
IsSorted [] = Unit
IsSorted (p ∷ ps) = All (λ q. p.order ≤ q.order) ps × IsSorted ps

abbrev pub runs_before : Processor → Processor → Bool
runs_before p q = leb q.order p.order

abbrev pub runs_after : Processor → Processor → Bool
runs_after p q = ltb p.order q.order

insert_front :
    (p : Processor) (qs : List Processor)
    → All (λ q. p.order ≤ q.order) qs
    → insert_by_order p qs ≡ p ∷ qs
unfolding insert_by_order
insert_front p [] h = refl
insert_front p (q ∷ qs) h = ground arith

sort_sorted : (ps : List Processor) → IsSorted ps → sort_by_order ps ≡ ps
unfolding sort_by_order
sort_sorted [] h = refl
sort_sorted (p ∷ ps) h = rw (sort_sorted ps h.1) (insert_front p ps h.0)

keep_later :
    (p q : Processor) (ps : List Processor)
    → p.order < q.order
    → All (λ r. q.order ≤ r.order) ps
    → (keep (runs_before p) ps ≡ []) × (keep (runs_after p) ps ≡ ps)
unfolding keep
keep_later p q [] lt h = (refl, refl)
keep_later p q (r ∷ ps) lt h = ground (arith, keep_later p q ps lt h.1)

snoc_later :
    (p q : Processor) (ps : List Processor)
    → q.order ≤ p.order
    → All (λ r. q.order ≤ r.order) ps
    → All (λ r. q.order ≤ r.order) (keep (runs_before p) ps ++ p ∷ keep (runs_after p) ps)
snoc_later p q ps le h =
    All-append (keep (runs_before p) ps) (p ∷ keep (runs_after p) ps) (λ r. q.order ≤ r.order)
      (
        All-keep_of (λ r. q.order ≤ r.order) (runs_before p) ps h,
        (le, All-keep_of (λ r. q.order ≤ r.order) (runs_after p) ps h),
      )

sort_snoc :
    (p : Processor) (ps : List Processor)
    → IsSorted ps
    → sort_by_order (ps ++ p ∷ []) ≡ keep (runs_before p) ps ++ p ∷ keep (runs_after p) ps
unfolding sort_by_order keep
sort_snoc p [] h = refl
sort_snoc p (q ∷ ps) h = elim (Bool-cases (leb q.order p.order)) [
  | inl before ↦
      rw (sort_snoc p ps h.1)
        (insert_front q _ (snoc_later p q ps (ground arith) h.0) ∙ ground arith)
  | inr after ↦
      let (none_before, all_after) = keep_later p q ps (ground arith) h.0 in
      rw (sort_snoc p ps h.1, none_before, all_after) (ground (arith, insert_front q ps h.0))
]

-- A processor that is not yet registered runs after all that have at most its order, in the order in
-- which these were registered, and before all that have a greater one.
pub register_processor-eq :
    (p : Processor) (ps : List Processor)
    → IsSorted ps
    → registered p ps ≡ false
    → register_processor p none ps ≡ keep (runs_before p) ps ++ p ∷ keep (runs_after p) ps
unfolding register_processor append_sorted
register_processor-eq p ps sorted new = rw new (sort_snoc p ps sorted)
