-- ===== src/Authentication/Manager/Unlimited.antt =====
-- Requests that the rate limiter does not concern.

use optorch.Base.{
  ◌≡◌, refl, ap, Bool, true, false, String, List, [], ◌∷◌, Option, none, some, if◌then◌else◌, ◌==◌,
}
use optorch.Authentication.Credentials.{has_bearer_token, is_limited}
use optorch.Authentication.Fallback.{AuthResult, AuthenticationProvider}
use optorch.Authentication.Manager.{
  Surroundings, AuthenticationManager, try_provider, recorded, record_if, find_provider,
  named_result, authenticate_named, handles, after_try, try_all, all_failed, sort_by_priority,
  available, authenticate_any, admitted, Continuation,
}
use optorch.Authentication.Middleware.{Request, RateLimitMiddleware}

module _ {E W : Type 0} (around : Surroundings E W) (request : Request) where
  abbrev pub Answer : Type 0
  Answer = AuthResult × AuthenticationManager E W × W

  -- the manager without its rate limiter
  abbrev pub unlimited : AuthenticationManager E W → AuthenticationManager E W
  unlimited m = record m { rate_limiter = none }

  abbrev pub with_manager : AuthenticationManager E W → Answer → Answer
  with_manager m (result, other, world) = (result, m, world)

  pub recorded-false :
      (success : Bool) (world : W) (o : Option RateLimitMiddleware)
      → recorded around false request success world o ≡ o
  unfolding recorded
  recorded-false success world none = refl
  recorded-false success world (some limiter) = refl

  record_if-false :
      (success : Bool) (world : W) (m : AuthenticationManager E W)
      → record_if around false request success world m ≡ m
  unfolding record_if
  record_if-false success world m =
      ap (λ (o : Option RateLimitMiddleware). record m { rate_limiter = o })
        (recorded-false success world m.rate_limiter)

  if-with_manager :
      (m : AuthenticationManager E W) (b : Bool) (x y x' y' : Answer)
      → x ≡ with_manager m x'
      → y ≡ with_manager m y'
      → (if b then x else y) ≡ with_manager m (if b then x' else y')
  if-with_manager m true x y x' y' h h' = h
  if-with_manager m false x y x' y' h h' = h'

  -- the answer and the world do not depend on the limiter, which stays as it is
  abbrev IsUnlimited : Continuation around → Type 0
  IsUnlimited rest =
      (last_error : Option String) (m : AuthenticationManager E W) (world : W)
      → rest last_error m world ≡ with_manager m (rest last_error (unlimited m) world)

  module _ (bearer : has_bearer_token request ≡ true) where
    pub not_limited : is_limited request ≡ false
    unfolding is_limited
    not_limited = rw bearer refl

    record_if-same :
        (success : Bool) (world : W) (m : AuthenticationManager E W)
        → record_if around (is_limited request) request success world m ≡ m
    record_if-same success world m = rw not_limited (record_if-false success world m)

    after_try-IsUnlimited :
        (p : AuthenticationProvider E W) (answer : AuthResult × W) (rest : Continuation around)
        (m : AuthenticationManager E W)
        → IsUnlimited rest
        → after_try around p request answer m rest
          ≡ with_manager m (after_try around p request answer (unlimited m) rest)
    unfolding after_try
    after_try-IsUnlimited p (result, world) rest m h =
        rw
          (record_if-same result.success world m, record_if-same result.success world (unlimited m))
          (if-with_manager m result.success _ _ _ _ refl (h result.error m world))

    try_all-IsUnlimited :
        (providers : List (AuthenticationProvider E W))
        → IsUnlimited (try_all around providers request (all_failed around request))
    unfolding try_all all_failed try_provider
    try_all-IsUnlimited [] last_error m world = refl
    try_all-IsUnlimited (p ∷ providers) last_error m world =
        if-with_manager m (handles around p.can_handle request) _ _ _ _
          (after_try-IsUnlimited p (try_provider around m p request world)
            (try_all around providers request (all_failed around request)) m
            (try_all-IsUnlimited providers))
          (try_all-IsUnlimited providers last_error m world)

    authenticate_any-IsUnlimited :
        (providers : List (AuthenticationProvider E W)) (m : AuthenticationManager E W) (world : W)
        → authenticate_any around providers request m world
          ≡ with_manager m (authenticate_any around providers request (unlimited m) world)
    unfolding authenticate_any
    authenticate_any-IsUnlimited [] m world = refl
    authenticate_any-IsUnlimited (p ∷ providers) m world =
        try_all-IsUnlimited (sort_by_priority around (p ∷ providers)) none m world

    named_result-IsUnlimited :
        (p : AuthenticationProvider E W) (answer : AuthResult × W) (m : AuthenticationManager E W)
        → named_result around p request answer m
          ≡ with_manager m (named_result around p request answer (unlimited m))
    unfolding named_result
    named_result-IsUnlimited p (result, world) m =
        rw (bearer, record_if-same result.success world m, record_if-false result.success world m)
          refl

    authenticate_named-IsUnlimited :
        (name : String) (o : Option (AuthenticationProvider E W)) (m : AuthenticationManager E W)
        (world : W)
        → authenticate_named around name o request m world
          ≡ with_manager m (authenticate_named around name o request (unlimited m) world)
    unfolding authenticate_named try_provider
    authenticate_named-IsUnlimited name none m world = refl
    authenticate_named-IsUnlimited name (some p) m world =
        named_result-IsUnlimited p (try_provider around m p request world) m

    pub admitted-IsUnlimited :
        (name : Option String) (m : AuthenticationManager E W) (world : W)
        → admitted around name request m world
          ≡ with_manager m (admitted around name request (unlimited m) world)
    unfolding admitted
    admitted-IsUnlimited none m world =
        authenticate_any-IsUnlimited (available around m.health_checker m.providers_list) m world
    admitted-IsUnlimited (some name) m world =
        if-with_manager m (name == "") _ _ _ _
          (authenticate_any-IsUnlimited (available around m.health_checker m.providers_list) m
            world)
          (authenticate_named-IsUnlimited name (find_provider around name m.providers_list) m world)
