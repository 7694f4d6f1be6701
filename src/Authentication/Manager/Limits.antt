-- ===== src/Authentication/Manager/Limits.antt =====
-- When the rate limiter is asked, and what is recorded in it.
use Prim.Native.Nat.{◌/◌}
use optorch.Base.{
  ◌++◌, ◌≢◌, eq_iff, ◌-◌, ◌≡◌, refl, sym, ap, subst, ◌∙◌, ℕ, ◌<◌, true, false, String, List, [],
  ◌∷◌, Option, none, some, ok, arith,
}
use optorch.Base.Dict
use optorch.Authentication.Credentials.{has_bearer_token, rate_credentials, is_limited}
use optorch.Authentication.Fallback.{AuthResult, AuthenticationProvider}
use optorch.Authentication.Manager.{
  Surroundings, AuthenticationManager, failure, try_provider, recorded, record_if, find_provider,
  named_result, authenticate_named, admitted, limited, authenticate_with, authenticate,
}
use optorch.Authentication.Middleware
use optorch.Authentication.Middleware.{Request, RateLimitMiddleware, get_identifier, record_result}
use optorch.Authentication.RateLimiter.{second, attempts_of, record_attempt}
use mathlib.Core.List.{append_assoc}
use optorch.Authentication.RateLimiter.Failures.{attempts_of-record_attempt}
use optorch.Authentication.RateLimiter.Lockout.{check_locked}
use optorch.Authentication.Manager.Unlimited.{
  unlimited, with_manager, not_limited, admitted-IsUnlimited,
}

-- A request with any "Bearer " header is answered as if there were no rate limiter, and leaves the limiter
-- as it is: neither a lockout nor a full window stops it, and its failures are not counted.
pub authenticate-bearer :
    {E W : Type 0} (around : Surroundings E W) (request : Request) (name : Option String)
    (m : AuthenticationManager E W) (world : W)
    → has_bearer_token request ≡ true
    → authenticate around request name m world
      ≡ with_manager around request m
          (authenticate around request name (unlimited around request m) world)
unfolding authenticate authenticate_with
authenticate-bearer around request name m world bearer = go m.rate_limiter
  where
    go :
        (o : Option RateLimitMiddleware)
        → authenticate_with around o name request m world
          ≡ with_manager around request m
              (admitted around name request (unlimited around request m) world)
    go none = admitted-IsUnlimited around request bearer name m world
    go (some limiter) =
        rw (not_limited around request bearer)
          (admitted-IsUnlimited around request bearer name m world)

-- While the identifier of a request is locked out, a request that is limited is refused with the time that
-- is left: no provider is asked, and the manager and the world stay as they are.
pub authenticate-locked :
    {E W : Type 0} (around : Surroundings E W) (request : Request) (name : Option String)
    (m : AuthenticationManager E W) (world : W) (limiter : RateLimitMiddleware) (lockout_until : ℕ)
    → m.rate_limiter ≡ some limiter
    → is_limited request ≡ true
    → Dict.get
        (get_identifier limiter.identify_by request (rate_credentials request))
        limiter.limiter.lockouts
      ≡ some lockout_until
    → around.clock.now world < lockout_until
    → authenticate around request name m world ≡ (
      failure (
          around.show_limit (record {
            retry_after_seconds = (lockout_until - around.clock.now world) / second;
            identifier = get_identifier limiter.identify_by request (rate_credentials request);
          })),
      m,
      world,
    )
unfolding authenticate authenticate_with limited Middleware.check
authenticate-locked around request name m world limiter lockout_until has counted locked early =
    let identifier = get_identifier limiter.identify_by request (rate_credentials request) in
    subst
      (λ (o : Option RateLimitMiddleware). authenticate_with around o name request m world ≡ (
        failure (
            around.show_limit (record {
              retry_after_seconds = (lockout_until - around.clock.now world) / second;
              identifier = identifier;
            })),
        record m { rate_limiter = o },
        world,
      ))
      (sym has)
      (rw
        (
          counted,
          check_locked identifier lockout_until (around.clock.now world) limiter.limiter early
              locked,
        )
        refl)

-- the recorded attempts of an identifier, none without a limiter
abbrev pub attempts_in : String → Option RateLimitMiddleware → List ℕ
attempts_in identifier none = []
attempts_in identifier (some limiter) = attempts_of identifier limiter.limiter

module _ {E W : Type 0} (around : Surroundings E W) (request : Request) where
  twice :
      (now : ℕ) (limiter : RateLimitMiddleware)
      → attempts_in (get_identifier limiter.identify_by request (rate_credentials request)) (
          some (
            record_result now request
              (rate_credentials request)
              false
              (record_result now request (rate_credentials request) false limiter)))
        ≡ attempts_of
            (get_identifier limiter.identify_by request (rate_credentials request))
            limiter.limiter
          ++ now ∷ now ∷ []
  unfolding record_result
  twice now limiter =
      let j = get_identifier limiter.identify_by request (rate_credentials request) in
      attempts_of-record_attempt j now (record_attempt now j false limiter.limiter)
      ∙ ap (λ l. l ++ now ∷ []) (attempts_of-record_attempt j now limiter.limiter)
      ∙ append_assoc (attempts_of j limiter.limiter) (now ∷ []) (now ∷ [])

  named_result-twice :
      (p : AuthenticationProvider E W) (answer : AuthResult × W) (m : AuthenticationManager E W)
      (limiter : RateLimitMiddleware)
      → m.rate_limiter ≡ some limiter
      → has_bearer_token request ≡ false
      → is_limited request ≡ true
      → answer.0.success ≡ false
      → attempts_in
          (get_identifier limiter.identify_by request (rate_credentials request))
          (named_result around p request answer m).1.rate_limiter
        ≡ attempts_of
            (get_identifier limiter.identify_by request (rate_credentials request))
            limiter.limiter
          ++ around.clock.now answer.1 ∷ around.clock.now answer.1 ∷ []
  unfolding named_result record_if recorded
  named_result-twice p (result, world) m limiter has no_bearer counted fails =
      rw (has, no_bearer, counted, fails) (twice (around.clock.now world) limiter)

  is_limited-bearer : is_limited request ≡ true → has_bearer_token request ≡ false
  unfolding is_limited
  is_limited-bearer h = ground arith

-- A login that is limited, that the limiter lets pass, and that the named provider refuses, is recorded as
-- two failed attempts of its identifier, not as one.
pub authenticate-twice :
    {E W : Type 0} (around : Surroundings E W) (request : Request) (name : String)
    (m : AuthenticationManager E W) (world : W) (limiter passed : RateLimitMiddleware)
    (p : AuthenticationProvider E W)
    → m.rate_limiter ≡ some limiter
    → is_limited request ≡ true
    → Middleware.check (around.clock.now world) request (rate_credentials request) limiter
      ≡ (ok tt, passed)
    → name ≢ ""
    → find_provider around name m.providers_list ≡ some p
    → (try_provider around m p request world).0.success ≡ false
    → attempts_in
        (get_identifier passed.identify_by request (rate_credentials request))
        (authenticate around request (some name) m world).1.rate_limiter
      ≡ attempts_of
          (get_identifier passed.identify_by request (rate_credentials request))
          passed.limiter
        ++ around.clock.now (try_provider around m p request world).1
          ∷ around.clock.now (try_provider around m p request world).1
          ∷ []
unfolding authenticate authenticate_with limited admitted authenticate_named try_provider
authenticate-twice around request name m world limiter passed p has counted passes named found
      fails =
    rw (has, counted, passes, found)
      (ground (
        arith,
        eq_iff name "",
        named_result-twice around request p (try_provider around m p request world)
            (record m { rate_limiter = some passed }) passed refl
            (is_limited-bearer around request counted) counted fails,
      ))
