-- ===== src/Authentication/Middleware.antt =====
-- `RateLimitMiddleware` of identity/authentication/rate_limiter.py: the limiter behind an identifier that is
-- built from the request and its credentials.
use optorch.Base.{
  ℕ, Bool, ◌||◌, String, List, [], ◌∷◌, ◌++◌, Option, none, some, Outcome, if◌then◌else◌, ◌==◌,
}
use optorch.Base.Texts.{join, ◌<>◌}
use optorch.Authentication.RateLimiter.{
  Limiter, RateLimitExceeded, check_rate_limit, record_attempt,
}

-- A request, or any other object that is passed for one. The attributes that the manager reads are `none`
-- where they are missing. `client_host` is `none` where the request has no `client`, and empty where its
-- host is None or empty; a `client` that is None, on which the source raises, is outside the model.
-- `content` is what else the providers read.
pub record Request : Type 0 where
  pub authorization : Option String
  pub email : Option String
  pub username : Option String
  pub client_host : Option String
  pub remote_addr : Option String
  pub content : String

-- the dict of credentials: the keys "username" and "email"
pub record Credentials : Type 0 where
  pub cred_username : Option String
  pub cred_email : Option String

pub record RateLimitMiddleware : Type 0 where
  pub limiter : Limiter
  pub identify_by : String

unfoldable pub name_identifiers : Option String → Option String → List String
name_identifiers (some username) email = username ∷ []
name_identifiers none (some email) = email ∷ []
name_identifiers none none = []

unfoldable pub credential_identifiers : Option Credentials → List String
credential_identifiers none = []
credential_identifiers (some credentials) =
    name_identifiers credentials.cred_username credentials.cred_email

unfoldable pub client_ip : Option String → Option String → Option String
client_ip (some host) remote_addr = some host
client_ip none remote_addr = remote_addr

unfoldable pub ip_identifiers : Option String → List String
ip_identifiers none = []
ip_identifiers (some ip) = if ip == "" then [] else ("ip:" <> ip) ∷ []

unfoldable pub join_or_unknown : List String → String
join_or_unknown [] = "unknown"
join_or_unknown (i ∷ identifiers) = join (i ∷ identifiers)

unfoldable pub get_identifier : String → Request → Option Credentials → String
get_identifier identify_by request credentials = join_or_unknown (
    (if identify_by == "email" || identify_by == "both"
      then credential_identifiers credentials
      else [])
    ++ (if identify_by == "ip" || identify_by == "both"
        then ip_identifiers (client_ip request.client_host request.remote_addr)
        else []))

abbrev pub with_limiter : {A : Type 0} → RateLimitMiddleware → A × Limiter → A × RateLimitMiddleware
with_limiter m (answer, limiter) = (answer, record m { limiter = limiter })

unfoldable pub check :
    ℕ
    → Request
    → Option Credentials
    → RateLimitMiddleware
    → Outcome RateLimitExceeded Unit × RateLimitMiddleware
check now request credentials m =
    with_limiter m
      (check_rate_limit now (get_identifier m.identify_by request credentials) m.limiter)

unfoldable pub record_result :
    ℕ → Request → Option Credentials → Bool → RateLimitMiddleware → RateLimitMiddleware
record_result now request credentials success m = record m {
  limiter = record_attempt now (get_identifier m.identify_by request credentials) success m.limiter;
}
