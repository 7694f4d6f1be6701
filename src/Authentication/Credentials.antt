-- ===== src/Authentication/Credentials.antt =====
-- The credentials that `AuthenticationManager` of identity/authentication/manager.py reads of a request.
use text.Mathlib.Text.{starts_with}
use optorch.Base.{Bool, true, false, not, ◌&&◌, String, Option, none, some, if◌then◌else◌}
use optorch.Authentication.Middleware.{Request, Credentials}

abbrev pub first_of : Option String → Option String → Option String
first_of (some email) username = some email
first_of none username = username

unfoldable pub extract_credentials : Request → Credentials
extract_credentials request = record {
  cred_username = none;
  cred_email = first_of request.email request.username;
}

abbrev pub is_bearer : Option String → Bool
is_bearer none = false
is_bearer (some header) = starts_with header "Bearer "

unfoldable pub has_bearer_token : Request → Bool
has_bearer_token request = is_bearer request.authorization

unfoldable pub rate_credentials : Request → Option Credentials
rate_credentials request =
    if has_bearer_token request then none else some (extract_credentials request)

abbrev pub names_user : Credentials → Bool
names_user credentials = elim credentials.cred_email [ none ↦ false | some email ↦ true ]

-- the condition under which an attempt is checked and recorded
unfoldable pub is_limited : Request → Bool
is_limited request = not (has_bearer_token request) && names_user (extract_credentials request)
