-- ===== src/Authentication/Health/Failures.antt =====
-- A provider is unhealthy exactly while its last checks have failed often enough.
use optorch.Base.{
  ℕ, ◌+◌, ◌<◌, ◌≡◌, refl, ap, ◌∙◌, Bool, true, false, not, String, List, [], ◌∷◌, some, leb,
  if◌then◌else◌, arith, ◌==◌, eq_iff, In, inl, inr, ◌⊎◌, Bool-cases,
}
use optorch.Base.Dict
use optorch.Base.Dict.{Dict}
use optorch.Authentication.Health.{
  ProviderHealthStatus, ProviderHealthChecker, new_status, checked, is_provider_healthy, healthy,
  check_provider, check_all, new_statuses, init,
}

-- the failures at the end of a sequence of checks of a provider, after `n` failures before it
unfoldable pub last_failures : String → List (String × Bool) → ℕ → ℕ
last_failures name [] n = n
last_failures name ((other, passes) ∷ checks) n =
    last_failures name checks (if other == name then (if passes then 0 else n + 1) else n)

-- The status says how many checks failed last, and is healthy while they are below the threshold.
abbrev IsCounted : String → ℕ → ℕ → ProviderHealthChecker → Type 0
IsCounted name threshold n h =
    (h.failure_threshold ≡ threshold)
    × (status : ProviderHealthStatus) × (Dict.get name h.status ≡ some status)
    × (status.consecutive_failures ≡ n)
    × (status.is_healthy ≡ not (leb threshold n))

checked-IsCounted :
    (threshold n : ℕ) (passes : Bool) (status : ProviderHealthStatus)
    → 0 < threshold
    → status.consecutive_failures ≡ n
    → status.is_healthy ≡ not (leb threshold n)
    → ((checked threshold passes status).consecutive_failures ≡ (if passes then 0 else n + 1))
      × ((checked threshold passes status).is_healthy
          ≡ not (leb threshold (if passes then 0 else n + 1)))
unfolding checked
checked-IsCounted threshold n true status pos e h = (refl, ground arith)
checked-IsCounted threshold n false status pos e h = (ap (λ (k : ℕ). k + 1) e, ground (arith, e, h))

check_provider-IsCounted :
    (name other : String) (threshold n : ℕ) (passes : Bool) (h : ProviderHealthChecker)
    → 0 < threshold
    → IsCounted name threshold n h
    → IsCounted name threshold
        (if other == name then (if passes then 0 else n + 1) else n)
        (check_provider other passes h)
unfolding check_provider Dict.get_or
check_provider-IsCounted name other threshold n passes h pos (t, status, found, e, healthy) =
    elim (Bool-cases (other == name)) [
      | inl same ↦
          let own : other ≡ name = (eq_iff other name).0 same in
          let here : Dict.get other h.status ≡ some status =
            ap (λ k. Dict.get k h.status) own ∙ found in
          let (e', healthy') = checked-IsCounted threshold n passes status pos e healthy in
          rw same (
            t,
            checked threshold passes status,
            Dict.get-insert other name _ h.status ∙ ground (arith, same, t, here),
            e',
            healthy',
          )
      | inr differs ↦ rw differs (
        t,
        status,
        Dict.get-insert other name _ h.status ∙ ground (arith, differs, found),
        e,
        healthy,
      )
    ]

check_all-IsCounted :
    (name : String) (threshold : ℕ) (checks : List (String × Bool)) (n : ℕ)
    (h : ProviderHealthChecker)
    → 0 < threshold
    → IsCounted name threshold n h
    → IsCounted name threshold (last_failures name checks n) (check_all checks h)
unfolding check_all last_failures
check_all-IsCounted name threshold [] n h pos c = c
check_all-IsCounted name threshold ((other, passes) ∷ checks) n h pos c =
    check_all-IsCounted name threshold checks _ (check_provider other passes h) pos
      (check_provider-IsCounted name other threshold n passes h pos c)

new_statuses-new :
    (name : String) (names : List String) (status : Dict ProviderHealthStatus)
    → (Dict.get name status ≡ some new_status) ⊎ In name names
    → Dict.get name (new_statuses names status) ≡ some new_status
unfolding new_statuses
new_statuses-new name [] status (inl there) = there
new_statuses-new name [] status (inr missing) = absurd missing
new_statuses-new name (other ∷ names) status (inl there) =
    new_statuses-new name names (Dict.insert other new_status status)
      (inl (Dict.get-insert other name new_status status ∙ ground (arith, there)))
new_statuses-new name (other ∷ names) status (inr (inl here)) =
    new_statuses-new name names (Dict.insert other new_status status)
      (inl (Dict.get-insert other name new_status status ∙ ground (arith, here, eq_iff other name)))
new_statuses-new name (other ∷ names) status (inr (inr there)) =
    new_statuses-new name names (Dict.insert other new_status status) (inr there)

-- After any checks of a new checker a provider of it is healthy exactly if fewer of its own last checks
-- in a row have failed than the threshold (which is not zero): one check that passes makes it healthy
-- again, and the checks of other providers do not count.
pub is_provider_healthy-run :
    (name : String) (names : List String) (threshold : ℕ) (checks : List (String × Bool))
    → 0 < threshold
    → In name names
    → is_provider_healthy name (check_all checks (init threshold names))
      ≡ not (leb threshold (last_failures name checks 0))
unfolding is_provider_healthy init
is_provider_healthy-run name names threshold checks pos known =
    let (t, status, found, e, sound) =
      check_all-IsCounted name threshold checks 0 (init threshold names) pos
        (refl, new_status, new_statuses-new name names [] (inr known), refl, ground arith) in
    ap healthy found ∙ sound
