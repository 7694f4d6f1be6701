-- ===== src/Authentication/Manager/Soundness.antt =====
-- Nobody is authenticated whom no provider authenticates.
use optorch.Base.{
  ◌≡◌, refl, ℕ, zero, suc, ◌+◌, false, String, List, [], ◌∷◌, Option, none, some, Outcome, ok,
  raise, leb, if_both, ◌==◌, All,
}
use optorch.Authentication.Credentials.{is_limited}
use optorch.Authentication.Fallback.{
  AuthResult, AuthenticationProvider, FallbackStrategy, retry, cached_auth, retry_next, retry_loop,
  handle, first_success, handle_failure,
}
use optorch.Authentication.Health.{
  ProviderHealthChecker, get_healthy_providers, is_provider_healthy,
}
use optorch.Authentication.Manager.{
  Surroundings, AuthenticationManager, result_or_error, fall_back, try_result, try_provider,
  record_if, find_provider, name_matches, named_result, authenticate_named, handles, after_try,
  try_all, all_failed, insert_by_priority, sort_by_priority, available, authenticate_any, admitted,
  limited, authenticate_with, authenticate, Continuation,
}
use optorch.Authentication.Middleware.{Request, RateLimitMiddleware}
use optorch.Authentication.RateLimiter.{RateLimitExceeded}

module _ {E W : Type 0} (around : Surroundings E W) (request : Request) where
  -- an answer that is no success
  abbrev pub Refused : Outcome E AuthResult → Type 0
  Refused (ok result) = result.success ≡ false
  Refused (raise error) = Unit

  abbrev pub RefusesFor : Request → AuthenticationProvider E W → Type 0
  RefusesFor r p = (world : W) → Refused (p.authenticate r world).0

  -- the provider authenticates no exception that it gets for a request
  abbrev pub RefusesErrors : AuthenticationProvider E W → Type 0
  RefusesErrors p = (error : E) → RefusesFor (around.of_error error) p

  -- the provider never authenticates the request, nor an exception in its place
  abbrev pub Refuses : AuthenticationProvider E W → Type 0
  Refuses p = RefusesFor request p × RefusesErrors p

  abbrev pub IsRetry : FallbackStrategy → Type 0
  IsRetry (retry n) = Unit
  IsRetry (cached_auth ttl cache) = ⊥

  abbrev pub AreRetries : Option (List FallbackStrategy) → Type 0
  AreRetries none = Unit
  AreRetries (some strategies) = All IsRetry strategies

  abbrev NoSuccess : Option AuthResult × W → Type 0
  NoSuccess (none, world) = Unit
  NoSuccess (some result, world) = result.success ≡ false

  retry_loop-NoSuccess :
      (r : Request) (p : AuthenticationProvider E W)
      → RefusesFor r p
      → (attempt rounds : ℕ) (world : W)
      → NoSuccess (retry_loop around.clock p r attempt rounds world)
  unfolding retry_loop retry_next
  retry_loop-NoSuccess r p refuses attempt zero world = tt
  retry_loop-NoSuccess r p refuses attempt (suc rounds) world =
      go (p.authenticate r (around.clock.sleep attempt world))
        (refuses (around.clock.sleep attempt world))
        (retry_loop-NoSuccess r p refuses (attempt + 1) rounds)
    where
      go :
          (answer : Outcome E AuthResult × W)
          → Refused answer.0
          → ((w : W) → NoSuccess (retry_loop around.clock p r (attempt + 1) rounds w))
          → NoSuccess
              (retry_next around.clock answer (retry_loop around.clock p r (attempt + 1) rounds))
      go (raise error, w) h rest = rest w
      go (ok result, w) h rest = rw h (rest w)

  handle_failure-NoSuccess :
      (r : Request) (strategies : List FallbackStrategy) (p : AuthenticationProvider E W)
      → All IsRetry strategies
      → RefusesFor r p
      → (world : W) → NoSuccess (handle_failure around.clock strategies p r world)
  unfolding handle_failure first_success handle
  handle_failure-NoSuccess r [] p retries refuses world = tt
  handle_failure-NoSuccess r (retry n ∷ strategies) p retries refuses world =
      go (retry_loop around.clock p r 0 n world) (retry_loop-NoSuccess r p refuses 0 n world)
        (handle_failure-NoSuccess r strategies p retries.1 refuses)
    where
      go :
          (answer : Option AuthResult × W)
          → NoSuccess answer
          → ((w : W) → NoSuccess (handle_failure around.clock strategies p r w))
          → NoSuccess (first_success answer (handle_failure around.clock strategies p r))
      go (none, w) h rest = rest w
      go (some result, w) h rest = rw h (rest w)
  handle_failure-NoSuccess r (cached_auth ttl cache ∷ strategies) p retries refuses world =
      absurd retries.0

  fall_back-Refuses :
      (o : Option (List FallbackStrategy)) (p : AuthenticationProvider E W) (error : E) (world : W)
      → AreRetries o
      → RefusesErrors p
      → (fall_back around o p error world).0.success ≡ false
  unfolding fall_back result_or_error
  fall_back-Refuses none p error world retries refuses = refl
  fall_back-Refuses (some strategies) p error world retries refuses =
      go (handle_failure around.clock strategies p (around.of_error error) world) (
        handle_failure-NoSuccess (around.of_error error) strategies p retries (refuses error) world)
    where
      go :
          (answer : Option AuthResult × W)
          → NoSuccess answer
          → (result_or_error around error answer).0.success ≡ false
      go (none, w) h = refl
      go (some result, w) h = h

  try_provider-Refuses :
      (m : AuthenticationManager E W) (p : AuthenticationProvider E W) (world : W)
      → AreRetries m.fallback_handler
      → Refuses p
      → (try_provider around m p request world).0.success ≡ false
  unfolding try_provider try_result
  try_provider-Refuses m p world retries refuses =
      go (p.authenticate request world) (refuses.0 world)
    where
      go :
          (answer : Outcome E AuthResult × W)
          → Refused answer.0
          → (try_result around m.fallback_handler p answer).0.success ≡ false
      go (ok result, w) h = h
      go (raise error, w) h = fall_back-Refuses m.fallback_handler p error w retries refuses.1

  abbrev Fails : AuthResult × AuthenticationManager E W × W → Type 0
  Fails (result, m, world) = result.success ≡ false

  abbrev FailsLater : Continuation around → Type 0
  FailsLater rest =
      (last_error : Option String) (m : AuthenticationManager E W) (world : W)
      → AreRetries m.fallback_handler
      → Fails (rest last_error m world)

  after_try-Refuses :
      (p : AuthenticationProvider E W) (answer : AuthResult × W) (m : AuthenticationManager E W)
      (rest : Continuation around)
      → AreRetries m.fallback_handler
      → answer.0.success ≡ false
      → FailsLater rest
      → Fails (after_try around p request answer m rest)
  unfolding after_try record_if
  after_try-Refuses p (result, world) m rest retries h later = rw h (
      later result.error (record_if around (is_limited request) request false world m) world
        retries)

  try_all-Refuses :
      (providers : List (AuthenticationProvider E W))
      → All Refuses providers
      → FailsLater (try_all around providers request (all_failed around request))
  unfolding try_all all_failed
  try_all-Refuses [] refuse last_error m world retries = refl
  try_all-Refuses (p ∷ providers) refuse last_error m world retries =
      if_both Fails (handles around p.can_handle request) _ _
        (λ _.
          after_try-Refuses p (try_provider around m p request world) m
            (try_all around providers request (all_failed around request)) retries
            (try_provider-Refuses m p world retries refuse.0) (try_all-Refuses providers refuse.1))
        (λ _. try_all-Refuses providers refuse.1 last_error m world retries)

  insert-Refuses :
      (p : AuthenticationProvider E W) (providers : List (AuthenticationProvider E W))
      → Refuses p
      → All Refuses providers
      → All Refuses (insert_by_priority around p providers)
  unfolding insert_by_priority
  insert-Refuses p [] h hs = (h, tt)
  insert-Refuses p (q ∷ providers) h hs =
      if_both (All Refuses) (leb p.priority q.priority) _ _ (λ _. (h, hs))
        (λ _. (hs.0, insert-Refuses p providers h hs.1))

  sort-Refuses :
      (providers : List (AuthenticationProvider E W))
      → All Refuses providers
      → All Refuses (sort_by_priority around providers)
  unfolding sort_by_priority
  sort-Refuses [] h = tt
  sort-Refuses (p ∷ providers) h =
      insert-Refuses p (sort_by_priority around providers) h.0 (sort-Refuses providers h.1)

  available-Refuses :
      (o : Option ProviderHealthChecker) (providers : List (AuthenticationProvider E W))
      → All Refuses providers
      → All Refuses (available around o providers)
  unfolding available get_healthy_providers
  available-Refuses none providers h = h
  available-Refuses (some checker) [] h = tt
  available-Refuses (some checker) (p ∷ providers) h =
      let others = available-Refuses (some checker) providers h.1 in
      if_both (All Refuses) (is_provider_healthy p.class_name checker) _ _ (λ _. (h.0, others))
        (λ _. others)

  authenticate_any-Refuses :
      (providers : List (AuthenticationProvider E W)) (m : AuthenticationManager E W) (world : W)
      → AreRetries m.fallback_handler
      → All Refuses providers
      → Fails (authenticate_any around providers request m world)
  unfolding authenticate_any
  authenticate_any-Refuses [] m world retries h = refl
  authenticate_any-Refuses (p ∷ providers) m world retries h =
      try_all-Refuses (sort_by_priority around (p ∷ providers)) (sort-Refuses (p ∷ providers) h)
        none m world retries

  named_result-Fails :
      (p : AuthenticationProvider E W) (answer : AuthResult × W) (m : AuthenticationManager E W)
      → answer.0.success ≡ false
      → Fails (named_result around p request answer m)
  unfolding named_result
  named_result-Fails p (result, world) m h = rw h refl

  authenticate_named-Refuses :
      (name : String) (providers : List (AuthenticationProvider E W))
      (m : AuthenticationManager E W) (world : W)
      → AreRetries m.fallback_handler
      → All Refuses providers
      → Fails (authenticate_named around name (find_provider around name providers) request m world)
  unfolding authenticate_named find_provider
  authenticate_named-Refuses name [] m world retries h = refl
  authenticate_named-Refuses name (p ∷ providers) m world retries h =
      if_both (λ o. Fails (authenticate_named around name o request m world))
        (name_matches around name p) (some p) (find_provider around name providers)
        (λ _.
          named_result-Fails p (try_provider around m p request world) m
            (try_provider-Refuses m p world retries h.0))
        (λ _. authenticate_named-Refuses name providers m world retries h.1)

  admitted-Refuses :
      (name : Option String) (m : AuthenticationManager E W) (world : W)
      → AreRetries m.fallback_handler
      → All Refuses m.providers_list
      → Fails (admitted around name request m world)
  unfolding admitted
  admitted-Refuses none m world retries h =
      authenticate_any-Refuses (available around m.health_checker m.providers_list) m world retries
        (available-Refuses m.health_checker m.providers_list h)
  admitted-Refuses (some name) m world retries h =
      if_both Fails (name == "") _ _
        (λ _.
          authenticate_any-Refuses (available around m.health_checker m.providers_list) m world
            retries (available-Refuses m.health_checker m.providers_list h))
        (λ _. authenticate_named-Refuses name m.providers_list m world retries h)

-- A provider that raised an exception once does not authenticate the request, if it authenticates no
-- exception and the fallback strategies are retries (the default): although the strategies ask the
-- provider again, they do so with the exception in place of the request, and so even a provider that would
-- now accept the request fails.
pub try_provider-raised :
    {E W : Type 0} (around : Surroundings E W) (request : Request) (m : AuthenticationManager E W)
    (p : AuthenticationProvider E W) (error : E) (world world' : W)
    → AreRetries around request m.fallback_handler
    → RefusesErrors around request p
    → p.authenticate request world ≡ (raise error, world')
    → (try_provider around m p request world).0.success ≡ false
unfolding try_provider try_result
try_provider-raised around request m p error world world' retries refuses raised =
    rw raised (fall_back-Refuses around request m.fallback_handler p error world' retries refuses)

-- If no provider of the manager ever authenticates a request, nor an exception in its place, and the
-- fallback strategies are retries (the default), then the manager does not authenticate it either: whatever
-- the rate limiter, the health checker, the world and the provider that is asked for, the result is no
-- success.
pub authenticate-Refuses :
    {E W : Type 0} (around : Surroundings E W) (request : Request) (name : Option String)
    (m : AuthenticationManager E W) (world : W)
    → AreRetries around request m.fallback_handler
    → All (Refuses around request) m.providers_list
    → (authenticate around request name m world).0.success ≡ false
unfolding authenticate authenticate_with limited
authenticate-Refuses {E} {W} around request name m world retries h = start m.rate_limiter
  where
    checked :
        (answer : Outcome RateLimitExceeded Unit × RateLimitMiddleware)
        → (limited around answer name request m world).0.success ≡ false
    checked (raise exceeded, limiter) = refl
    checked (ok done, limiter) =
        admitted-Refuses around request name (record m { rate_limiter = some limiter }) world
          retries h

    start :
        (o : Option RateLimitMiddleware)
        → (authenticate_with around o name request m world).0.success ≡ false
    start none = admitted-Refuses around request name m world retries h
    start (some limiter) =
        if_both (λ (r : AuthResult × AuthenticationManager E W × W). r.0.success ≡ false)
          (is_limited request) _ _ (λ _. checked _)
          (λ _. admitted-Refuses around request name m world retries h)
