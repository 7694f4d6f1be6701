-- ===== src/Authentication/Manager.antt =====
-- `AuthenticationManager.authenticate` of identity/authentication/manager.py, which asks the rate limiter, the
-- health checker, the providers and the fallback strategies. The context of the caller is empty, events are
-- left out, and an audit entry is an action on the world.
pub mod Unlimited
pub mod Limits
pub mod Soundness
mod Tests
use optorch.Base.{
  ℕ, Bool, true, false, not, ◌&&◌, String, List, [], ◌∷◌, Option, none, some, Outcome, ok, raise,
  leb, if◌then◌else◌, ◌==◌,
}
use optorch.Base.Texts.{◌<>◌}
use optorch.Authentication.Credentials.{
  extract_credentials, has_bearer_token, rate_credentials, is_limited,
}
use optorch.Authentication.Fallback
use optorch.Authentication.Fallback.{
  AuthResult, AuthenticationProvider, FallbackStrategy, handle_failure,
}
use optorch.Authentication.Health.{ProviderHealthChecker, get_healthy_providers}
use optorch.Authentication.Middleware
use optorch.Authentication.Middleware.{Request, Credentials, RateLimitMiddleware, record_result}
use optorch.Authentication.RateLimiter.{RateLimitExceeded}

pub record AuditEntry : Type 0 where
  pub subject : String
  pub decision : String
  pub audited_provider : String
  pub reason : String

-- what the manager calls: the clock and the delays, `str` of exceptions, the operations on texts, the log
pub record Surroundings (E W : Type 0) : Type 0 where
  pub clock : Fallback.Surroundings W
  pub show : E → String
  -- an exception that is passed for a request
  pub of_error : E → Request
  pub show_limit : RateLimitExceeded → String
  pub lower : String → String
  -- `s.replace(part, "")`
  pub remove : String → String → String
  pub log_authentication : AuditEntry → W → W

pub record AuthenticationManager (E W : Type 0) : Type 0 where
  pub providers_list : List (AuthenticationProvider E W)
  pub health_checker : Option ProviderHealthChecker
  pub fallback_handler : Option (List FallbackStrategy)
  pub rate_limiter : Option RateLimitMiddleware

abbrev pub failure : String → AuthResult
failure error = record { success = false; individual = none; error = some error; provider = none }

abbrev pub error_or : Option String → String → String
error_or none default = default
error_or (some error) default = if error == "" then default else error

module _ {E W : Type 0} (around : Surroundings E W) where
  abbrev pub Manager : Type 0
  Manager = AuthenticationManager E W

  abbrev pub Provider : Type 0
  Provider = AuthenticationProvider E W

  unfoldable pub result_or_error : E → Option AuthResult × W → AuthResult × W
  result_or_error error (none, world) = (failure (around.show error), world)
  result_or_error error (some result, world) = (result, world)

  -- `_try_provider` calls `handle_failure(provider, request, error, context)`, whose parameters are
  -- `(provider, error, request, context)`: the strategies get the exception as their request.
  unfoldable pub fall_back : Option (List FallbackStrategy) → Provider → E → W → AuthResult × W
  fall_back none provider error world = (failure (around.show error), world)
  fall_back (some strategies) provider error world =
      result_or_error error
        (handle_failure around.clock strategies provider (around.of_error error) world)

  unfoldable pub try_result :
      Option (List FallbackStrategy) → Provider → Outcome E AuthResult × W → AuthResult × W
  try_result handler provider (ok result, world) = (result, world)
  try_result handler provider (raise error, world) = fall_back handler provider error world

  unfoldable pub try_provider : Manager → Provider → Request → W → AuthResult × W
  try_provider m provider request world =
      try_result m.fallback_handler provider (provider.authenticate request world)

  -- `rate_limiter.record` where there is a rate limiter and the condition holds
  unfoldable pub recorded :
      Bool → Request → Bool → W → Option RateLimitMiddleware → Option RateLimitMiddleware
  recorded condition request success world none = none
  recorded condition request success world (some limiter) =
      if condition
      then some (
          record_result (around.clock.now world) request (rate_credentials request) success limiter)
      else some limiter

  unfoldable pub record_if : Bool → Request → Bool → W → Manager → Manager
  record_if condition request success world m = record m {
    rate_limiter = recorded condition request success world m.rate_limiter;
  }

  unfoldable pub name_matches : String → Provider → Bool
  name_matches name p =
      around.lower (around.remove (around.remove p.class_name "Provider") "Authentication")
      == around.lower name

  unfoldable pub find_provider : String → List Provider → Option Provider
  find_provider name [] = none
  find_provider name (p ∷ providers) =
      let rest = find_provider name providers in if name_matches name p then some p else rest

  abbrev pub named_by : String → AuthResult → AuthResult
  named_by name result = if result.success then record result { provider = some name } else result

  -- a provider that the caller names: the result is recorded twice
  unfoldable pub named_result :
      Provider → Request → AuthResult × W → Manager → AuthResult × Manager × W
  named_result p request (result, world) m = (
    named_by p.class_name result,
    record_if (not (has_bearer_token request)) request result.success world
        (record_if (is_limited request) request result.success world m),
    world,
  )

  unfoldable pub authenticate_named :
      String → Option Provider → Request → Manager → W → AuthResult × Manager × W
  authenticate_named name none request m world =
      (failure ("Provider " <> name <> " not found"), m, world)
  authenticate_named name (some p) request m world =
      named_result p request (try_provider m p request world) m

  unfoldable pub audit_success : String → Option String → W → W
  audit_success name none world = world
  audit_success name (some id) world =
      around.log_authentication
        (record {
          subject = id;
          decision = "success";
          audited_provider = name;
          reason = "authenticated successfully";
        })
        world

  unfoldable pub handles : Option (Request → Bool) → Request → Bool
  handles none request = true
  handles (some can_handle) request = can_handle request

  abbrev pub Continuation : Type 0
  Continuation = Option String → Manager → W → AuthResult × Manager × W

  -- a success ends the loop over the providers
  unfoldable pub after_try :
      Provider → Request → AuthResult × W → Manager → Continuation → AuthResult × Manager × W
  after_try p request (result, world) m rest =
      let m = record_if (is_limited request) request result.success world m in
      let others = rest result.error m world in
      if result.success
      then (
        record result { provider = some p.class_name },
        m,
        audit_success p.class_name result.individual world,
      )
      else others

  unfoldable pub try_all : List Provider → Request → Continuation → Continuation
  try_all [] request done last_error m world = done last_error m world
  try_all (p ∷ providers) request done last_error m world =
      let others = try_all providers request done last_error m world in
      if handles p.can_handle request
      then after_try p request (try_provider m p request world) m (try_all providers request done)
      else others

  -- the audit looks for the key "username", which `_extract_credentials` never sets
  abbrev pub audited_subject : Credentials → String
  audited_subject credentials = elim credentials.cred_username [
    | none ↦ "unknown"
    | some username ↦ username
  ]

  unfoldable pub all_failed : Request → Continuation
  all_failed request last_error m world = (
    failure (error_or last_error "No provider could authenticate request"),
    m,
    around.log_authentication
        (record {
          subject = audited_subject (extract_credentials request);
          decision = "failure";
          audited_provider = "all_providers";
          reason = error_or last_error "no provider could authenticate";
        })
        world,
  )

  -- `sorted(providers, key=priority)`, which keeps the order of equal priorities
  unfoldable pub insert_by_priority : Provider → List Provider → List Provider
  insert_by_priority p [] = p ∷ []
  insert_by_priority p (q ∷ providers) =
      let rest = insert_by_priority p providers in
      if leb p.priority q.priority then p ∷ q ∷ providers else q ∷ rest

  unfoldable pub sort_by_priority : List Provider → List Provider
  sort_by_priority [] = []
  sort_by_priority (p ∷ providers) = insert_by_priority p (sort_by_priority providers)

  unfoldable pub available : Option ProviderHealthChecker → List Provider → List Provider
  available none providers = providers
  available (some checker) providers = get_healthy_providers (λ p. p.class_name) providers checker

  unfoldable pub authenticate_any : List Provider → Request → Manager → W → AuthResult × Manager × W
  authenticate_any [] request m world = (failure "No healthy providers available", m, world)
  authenticate_any (p ∷ providers) request m world =
      try_all (sort_by_priority (p ∷ providers)) request (all_failed request) none m world

  unfoldable pub admitted : Option String → Request → Manager → W → AuthResult × Manager × W
  admitted none request m world =
      authenticate_any (available m.health_checker m.providers_list) request m world
  admitted (some name) request m world =
      if name == ""
      then authenticate_any (available m.health_checker m.providers_list) request m world
      else authenticate_named name (find_provider name m.providers_list) request m world

  unfoldable pub limited :
      Outcome RateLimitExceeded Unit × RateLimitMiddleware
      → Option String
      → Request
      → Manager
      → W
      → AuthResult × Manager × W
  limited (raise exceeded, limiter) name request m world =
      (failure (around.show_limit exceeded), record m { rate_limiter = some limiter }, world)
  limited (ok done, limiter) name request m world =
      admitted name request (record m { rate_limiter = some limiter }) world

  unfoldable pub authenticate_with :
      Option RateLimitMiddleware → Option String → Request → Manager → W → AuthResult × Manager × W
  authenticate_with none name request m world = admitted name request m world
  authenticate_with (some limiter) name request m world =
      if is_limited request
      then limited
          (Middleware.check (around.clock.now world) request (rate_credentials request) limiter)
          name request m world
      else admitted name request m world

  unfoldable pub authenticate : Request → Option String → Manager → W → AuthResult × Manager × W
  authenticate request name m world = authenticate_with m.rate_limiter name request m world
