-- ===== src/Llm/Lifecycle/Substates.antt =====
-- Which processors a set of active substates selects.
use optorch.Base.{
  ◌≡◌, refl, true, false, not, ◌&&◌, String, List, [], ◌∷◌, ◌↔◌, ◌⊎◌, inl, inr, if◌then◌else◌, any,
  elem, ◌==◌, arith, Bool-cases, not_true, eq_iff,
}
use optorch.Llm.Lifecycle.{Processor, is_empty, intersects, matches_substates}

-- Some substate is in both lists.
abbrev pub Overlap : List String → List String → Type 0
Overlap active names = (s : String) × (elem s active ≡ true) × (elem s names ≡ true)

intersects-Overlap :
    (active names : List String) → intersects active names ≡ true → Overlap active names
unfolding intersects any elem
intersects-Overlap [] names h = cc
intersects-Overlap (a ∷ active) names h = elim (Bool-cases (elem a names)) [
  | inl here ↦ (a, ground (arith, eq_iff a a), here)
  | inr gone ↦
      let (s, in_active, in_names) = intersects-Overlap active names (ground arith) in
      (s, ground arith, in_names)
]

Overlap-intersects :
    (active names : List String) → Overlap active names → intersects active names ≡ true
unfolding intersects any elem
Overlap-intersects [] names (s, here, there) = cc
Overlap-intersects (a ∷ active) names (s, here, there) = elim (Bool-cases (s == a)) [
  | inl same ↦ rw (← (eq_iff s a).0 same, there)
  | inr other ↦ ground (arith, Overlap-intersects active names (s, ground arith, there))
]

excludes_iff :
    (active names : List String)
    → ((not (is_empty names) && intersects active names) ≡ true) ↔ Overlap active names
unfolding is_empty elem
excludes_iff active [] = (λ h. cc, λ o. absurd (ground arith))
excludes_iff active (n ∷ ns) =
    (intersects-Overlap active (n ∷ ns), Overlap-intersects active (n ∷ ns))

admits_iff :
    (active names : List String)
    → ((if is_empty names then true else intersects active names) ≡ true)
      ↔ ((names ≡ []) ⊎ Overlap active names)
unfolding is_empty elem
admits_iff active [] = (λ h. inl refl, λ o. refl)
admits_iff active (n ∷ ns) = (
  λ h. inr (intersects-Overlap active (n ∷ ns) h),
  elim [ inl e ↦ absurd (cc) | inr o ↦ Overlap-intersects active (n ∷ ns) o ],
)

-- A processor matches exactly when no active substate is excluded, and its own substates, if it names
-- any, include an active one.
pub matches_substates_iff :
    (p : Processor) (active : List String)
    → (matches_substates p active ≡ true)
      ↔ ((¬ Overlap active p.exclude_substates) × ((p.substates ≡ []) ⊎ Overlap active p.substates))
unfolding matches_substates
matches_substates_iff p active =
    let excluded = excludes_iff active p.exclude_substates in
    let admitted = admits_iff active p.substates in
    (
      λ h. (λ o. let e = excluded.1 o in cc, admitted.0 (ground arith)),
      λ h.
          let kept : (not (is_empty p.exclude_substates) && intersects active p.exclude_substates)
              ≡ false =
            not_true _ (λ e. h.0 (excluded.0 e)) in
          let chosen = admitted.1 h.1 in ground arith,
    )
