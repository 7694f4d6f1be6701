-- ===== src/Authentication/Health/Tests.antt =====
-- `ProviderHealthChecker` on concrete checks.
use optorch.Base.{◌≡◌, refl, false, true, inl, [], ◌∷◌, arith}
use optorch.Authentication.Health.{init, check_all, is_provider_healthy}
use optorch.Authentication.Health.Failures.{last_failures, is_provider_healthy-run}

is_provider_healthy-run_example :
    is_provider_healthy "A"
      (check_all (("A", false) ∷ ("B", true) ∷ ("A", false) ∷ []) (init 2 ("A" ∷ "B" ∷ [])))
    ≡ false
unfolding last_failures
is_provider_healthy-run_example =
    is_provider_healthy-run "A" ("A" ∷ "B" ∷ []) 2 (("A", false) ∷ ("B", true) ∷ ("A", false) ∷ [])
      (omega arith) (inl refl)
