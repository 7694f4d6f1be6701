-- ===== src/Authentication/Manager/Tests.antt =====
-- `AuthenticationManager.authenticate` on concrete requests. The world is the clock.
use optorch.Base.{
  ℕ, ◌+◌, ◌≡◌, refl, true, false, String, [], ◌∷◌, Option, none, some, Outcome, ok, raise, ltb,
  if◌then◌else◌, arith,
}
use optorch.Base.Texts.{join}
use optorch.Base.Dict
use optorch.Authentication.Credentials.{
  extract_credentials, has_bearer_token, rate_credentials, is_limited,
}
use optorch.Authentication.Fallback.{AuthResult, AuthenticationProvider, retry}
use optorch.Authentication.Manager.{
  Surroundings, AuthenticationManager, failure, authenticate, find_provider, name_matches,
  try_provider, try_result, fall_back,
}
use optorch.Authentication.Manager.Limits.{authenticate-bearer, authenticate-locked}
use optorch.Authentication.Manager.Unlimited.{unlimited, with_manager}
use optorch.Authentication.Manager.Soundness.{try_provider-raised, authenticate-Refuses}
use optorch.Authentication.Middleware.{
  Request, RateLimitMiddleware, get_identifier, check, credential_identifiers, name_identifiers,
  join_or_unknown,
}
use optorch.Authentication.RateLimiter.{
  init, check_rate_limit, check_lockout, check_window, drop_expired,
}

abbrev nothing : Request
nothing = record {
  authorization = none;
  email = none;
  username = none;
  client_host = none;
  remote_addr = none;
  content = "";
}

abbrev around : Surroundings Unit ℕ
around = record {
  clock = record {
    now = λ world. world;
    sleep = λ attempt world. world + 1;
    extract_user_id = λ request. none;
  };
  show = λ error. "error";
  of_error = λ error. nothing;
  show_limit = λ exceeded. "too many";
  lower = λ s. s;
  remove = λ s part. s;
  log_authentication = λ entry world. world;
}

abbrev login : Request
login = record {
  authorization = none;
  email = some "ada@example.org";
  username = none;
  client_host = none;
  remote_addr = none;
  content = "";
}

abbrev with_bearer : Request
with_bearer = record login { authorization = some "Bearer x" }

-- it raises
abbrev provider : AuthenticationProvider Unit ℕ
provider = record {
  class_name = "local";
  priority = 1;
  can_handle = none;
  authenticate = λ request world. (raise tt, world + 1);
}

abbrev middleware : RateLimitMiddleware
middleware = record {
  limiter = init (record { max_attempts = 3; window_seconds = 60; lockout_seconds = 60 });
  identify_by = "email";
}

abbrev locked_out : RateLimitMiddleware
locked_out = record middleware {
  limiter = record (init (record { max_attempts = 3; window_seconds = 60; lockout_seconds = 60 })) {
    lockouts = ("ada@example.org", 9000000) ∷ [];
  };
}

abbrev manager : AuthenticationManager Unit ℕ
manager = record {
  providers_list = provider ∷ [];
  health_checker = none;
  fallback_handler = some (retry 2 ∷ []);
  rate_limiter = some locked_out;
}

abbrev open_manager : AuthenticationManager Unit ℕ
open_manager = record manager { fallback_handler = none; rate_limiter = some middleware }

authenticate-Refuses_example : (authenticate around login none manager 5).0.success ≡ false
authenticate-Refuses_example =
    authenticate-Refuses around login none manager 5 (tt, tt)
      (((λ world. tt), (λ error world. tt)), tt)

bearer : has_bearer_token with_bearer ≡ true
unfolding has_bearer_token
bearer = refl

authenticate-bearer_example :
    authenticate around with_bearer none manager 5
    ≡ with_manager around with_bearer manager
        (authenticate around with_bearer none (unlimited around with_bearer manager) 5)
authenticate-bearer_example = authenticate-bearer around with_bearer none manager 5 bearer

login-is_limited : is_limited login ≡ true
unfolding is_limited extract_credentials has_bearer_token
login-is_limited = refl

login-get_identifier : get_identifier "email" login (rate_credentials login) ≡ "ada@example.org"
unfolding join get_identifier rate_credentials extract_credentials has_bearer_token
    credential_identifiers name_identifiers join_or_unknown
login-get_identifier = refl

authenticate-locked_example :
    authenticate around login none manager 5 ≡ (failure "too many", manager, 5)
unfolding Dict.get
authenticate-locked_example =
    authenticate-locked around login none manager 5 locked_out 9000000 refl login-is_limited
      (rw login-get_identifier refl) (omega arith)

abbrev passed : RateLimitMiddleware
passed = record middleware {
  limiter = record (init (record { max_attempts = 3; window_seconds = 60; lockout_seconds = 60 })) {
    attempts = ("ada@example.org", []) ∷ [];
  };
}

passes : check 5 login (rate_credentials login) middleware ≡ (ok tt, passed)
unfolding check check_rate_limit check_lockout check_window drop_expired Dict.insert Dict.get
passes = rw login-get_identifier refl

found : find_provider around "local" manager.providers_list ≡ some provider
unfolding find_provider name_matches
found = refl

provider_fails : (try_provider around open_manager provider login 5).0.success ≡ false
unfolding try_provider try_result fall_back
provider_fails = refl

abbrev accepted : AuthResult
accepted = record { success = true; individual = some "ada"; error = none; provider = none }

-- it raises before the time 6 and accepts a login later
abbrev late_answer : Option String → ℕ → Outcome Unit AuthResult × ℕ
late_answer none world = (raise tt, world)
late_answer (some email) world = if ltb world 6 then (raise tt, world + 1) else (ok accepted, world)

abbrev late : AuthenticationProvider Unit ℕ
late = record provider { authenticate = λ request world. late_answer request.email world }

try_provider-raised_example : (try_provider around manager late login 5).0.success ≡ false
try_provider-raised_example =
    try_provider-raised around login manager late tt 5 6 (tt, tt) (λ error world. tt) refl
