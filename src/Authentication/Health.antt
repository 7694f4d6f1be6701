-- ===== src/Authentication/Health.antt =====
-- identity/authentication/health_check.py: which providers are healthy. A check is what the provider's
-- health check does: it returns or raises. Status fields that no decision reads are left out.
pub mod Failures
mod Tests
use optorch.Base.{
  ℕ, ◌+◌, Bool, true, false, String, List, [], ◌∷◌, Option, none, some, leb, if◌then◌else◌,
}
use optorch.Base.Dict
use optorch.Base.Dict.{Dict}

pub record ProviderHealthStatus : Type 0 where
  pub is_healthy : Bool
  pub consecutive_failures : ℕ
  pub total_checks : ℕ
  pub successful_checks : ℕ

abbrev pub new_status : ProviderHealthStatus
new_status = record {
  is_healthy = true;
  consecutive_failures = 0;
  total_checks = 0;
  successful_checks = 0;
}

pub record ProviderHealthChecker : Type 0 where
  pub failure_threshold : ℕ
  pub status : Dict ProviderHealthStatus

-- the status after a check, by whether the check returned
unfoldable pub checked : ℕ → Bool → ProviderHealthStatus → ProviderHealthStatus
checked failure_threshold true status = record {
  is_healthy = true;
  consecutive_failures = 0;
  total_checks = status.total_checks + 1;
  successful_checks = status.successful_checks + 1;
}
checked failure_threshold false status = record {
  is_healthy =
      if leb failure_threshold (status.consecutive_failures + 1) then false else status.is_healthy;
  consecutive_failures = status.consecutive_failures + 1;
  total_checks = status.total_checks + 1;
  successful_checks = status.successful_checks;
}

abbrev pub healthy : Option ProviderHealthStatus → Bool
healthy none = false
healthy (some status) = status.is_healthy

unfoldable pub is_provider_healthy : String → ProviderHealthChecker → Bool
is_provider_healthy name h = healthy (Dict.get name h.status)

abbrev pub status_of : String → ProviderHealthChecker → ProviderHealthStatus
status_of name h = Dict.get_or name new_status h.status

unfoldable pub check_provider : String → Bool → ProviderHealthChecker → ProviderHealthChecker
check_provider name passes h = record h {
  status = Dict.insert name (checked h.failure_threshold passes (status_of name h)) h.status;
}

-- the names of the providers with what their checks do
unfoldable pub check_all : List (String × Bool) → ProviderHealthChecker → ProviderHealthChecker
check_all [] h = h
check_all ((name, passes) ∷ providers) h = check_all providers (check_provider name passes h)

unfoldable pub get_healthy_providers :
    {P : Type 0} → (P → String) → List P → ProviderHealthChecker → List P
get_healthy_providers class_name [] h = []
get_healthy_providers class_name (p ∷ providers) h =
    let rest = get_healthy_providers class_name providers h in
    if is_provider_healthy (class_name p) h then p ∷ rest else rest

-- `ProviderHealthChecker(providers)`
unfoldable pub new_statuses : List String → Dict ProviderHealthStatus → Dict ProviderHealthStatus
new_statuses [] status = status
new_statuses (name ∷ names) status = new_statuses names (Dict.insert name new_status status)

unfoldable pub init : ℕ → List String → ProviderHealthChecker
init failure_threshold names = record {
  failure_threshold = failure_threshold;
  status = new_statuses names [];
}
