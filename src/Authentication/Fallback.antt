-- ===== src/Authentication/Fallback.antt =====
-- identity/authentication/fallback_handler.py: what follows the failure of a provider. A provider acts on a
-- world, returns a result or raises; the delays of the retries are an action on the world.
use optorch.Base.{
  ℕ, zero, suc, ◌+◌, ◌-◌, ◌*◌, Bool, String, List, [], ◌∷◌, Option, none, some, Outcome, ok, raise,
  ltb, if◌then◌else◌, ◌==◌,
}
use optorch.Base.Dict
use optorch.Base.Dict.{Dict}
use optorch.Base.Texts.{◌<>◌}
use optorch.Authentication.Middleware.{Request}

pub record AuthResult : Type 0 where
  pub success : Bool
  pub individual : Option String
  pub error : Option String
  pub provider : Option String

pub record AuthenticationProvider (E W : Type 0) : Type 0 where
  pub class_name : String
  pub priority : ℕ
  -- none where the provider has no method `can_handle`
  pub can_handle : Option (Request → Bool)
  pub authenticate : Request → W → Outcome E AuthResult × W

-- what the module reads of its surroundings: the clock, a delay for an attempt, and the user of a request
pub record Surroundings (W : Type 0) : Type 0 where
  pub now : W → ℕ
  pub sleep : ℕ → W → W
  pub extract_user_id : Request → Option String

pub data FallbackStrategy : Type 0 where
  -- the number of retries
  retry : ℕ → FallbackStrategy
  -- the time to live, in seconds, and the cache
  cached_auth : ℕ → Dict (AuthResult × ℕ) → FallbackStrategy

abbrev pub second : ℕ
second = 1000000

unfoldable pub fresh : ℕ → ℕ → Option (AuthResult × ℕ) → Option AuthResult
fresh now ttl none = none
fresh now ttl (some (result, cached_at)) =
    if ltb (now - cached_at) (ttl * second) then some result else none

-- the first strategy that returns a success
unfoldable pub first_success :
    {W : Type 0} → Option AuthResult × W → (W → Option AuthResult × W) → Option AuthResult × W
first_success (none, world) rest = rest world
first_success (some result, world) rest =
    let others = rest world in if result.success then (some result, world) else others

module _ {E W : Type 0} (around : Surroundings W) where
  -- an attempt ends the loop if it returned a success, and is passed over if it raised
  unfoldable pub retry_next :
      Outcome E AuthResult × W → (W → Option AuthResult × W) → Option AuthResult × W
  retry_next (raise problem, world) rest = rest world
  retry_next (ok result, world) rest =
      let others = rest world in if result.success then (some result, world) else others

  -- the loop of RetryStrategy, from an attempt on, with the rounds that are left
  unfoldable pub retry_loop :
      AuthenticationProvider E W → Request → ℕ → ℕ → W → Option AuthResult × W
  retry_loop provider request attempt zero world = (none, world)
  retry_loop provider request attempt (suc rounds) world =
      retry_next (provider.authenticate request (around.sleep attempt world))
        (retry_loop provider request (attempt + 1) rounds)

  unfoldable pub cached_for :
      AuthenticationProvider E W → Option String → ℕ → ℕ → Dict (AuthResult × ℕ) → Option AuthResult
  cached_for provider none now ttl cache = none
  cached_for provider (some user_id) now ttl cache =
      if user_id == ""
      then none
      else fresh now ttl (Dict.get (provider.class_name <> ":" <> user_id) cache)

  unfoldable pub handle :
      FallbackStrategy → AuthenticationProvider E W → Request → W → Option AuthResult × W
  handle (retry max_retries) provider request world =
      retry_loop provider request 0 max_retries world
  handle (cached_auth ttl cache) provider request world =
      (cached_for provider (around.extract_user_id request) (around.now world) ttl cache, world)

  unfoldable pub handle_failure :
      List FallbackStrategy → AuthenticationProvider E W → Request → W → Option AuthResult × W
  handle_failure [] provider request world = (none, world)
  handle_failure (strategy ∷ strategies) provider request world =
      first_success (handle strategy provider request world)
        (handle_failure strategies provider request)
