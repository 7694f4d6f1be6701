-- ===== src/Authentication/RateLimiter/Tests.antt =====
-- A limiter of three attempts in ten seconds, with a lockout of one minute or of five seconds.
use optorch.Base.{
  ◌≡◌, ◌≢◌, refl, true, false, String, List, [], ◌∷◌, ◌++◌, some, keep, arith, eq_iff,
}
use optorch.Base.Dict
use optorch.Authentication.RateLimiter.{
  RateLimitConfig, Limiter, init, drop_expired, lift_lockout, check_window, check_lockout,
  check_rate_limit, count_remaining, get_remaining_attempts, record_attempt, record_success,
  record_failure, reset, Event, check, attempt, step, run,
}
use optorch.Authentication.RateLimiter.Lockout.{rejected, run-check_locked}
use optorch.Authentication.RateLimiter.Window.{passes, IsChronological}
use optorch.Authentication.RateLimiter.Failures.{failures, check-run-failures}

abbrev strict : RateLimitConfig
strict = record { max_attempts = 3; window_seconds = 10; lockout_seconds = 60 }

abbrev attack : List Event
attack = failures "ann" (1 ∷ 2000000 ∷ 3000000 ∷ []) ++ check 4000000 "ann" ∷ []

program : Unit {0}
unfolding run step check_rate_limit check_lockout check_window lift_lockout drop_expired
    record_attempt record_failure record_success reset get_remaining_attempts count_remaining
    Dict.get Dict.insert Dict.erase Dict.has keep
program = tt

-- The third failure leads to a lockout of a minute.
locked : run attack (init strict) ≡ record {
  config = strict;
  attempts = ("ann", 1 ∷ 2000000 ∷ 3000000 ∷ []) ∷ [];
  lockouts = ("ann", 64000000) ∷ [];
}
unfolding program
locked = refl

-- A success clears both tables.
cleared :
    get_remaining_attempts 5000000 "ann"
      (record_attempt 5000000 "ann" true (run attack (init strict)))
    ≡ 3
unfolding program
cleared = refl

a_not_b : ◌≢◌ {A = String} "bob" "ann"
a_not_b = ground (arith, eq_iff "bob" "ann")

abbrev held : Limiter
held = record { config = strict; attempts = []; lockouts = ("ann", 64000000) ∷ [] }

held_until : Dict.get "ann" held.lockouts ≡ some 64000000
unfolding Dict.get
held_until = refl

run-check_locked_example :
    check_rate_limit 10000000 "ann"
      (run (attempt 5000000 "ann" false ∷ check 6000000 "bob" ∷ []) held)
    ≡ (
      rejected 64000000 10000000 "ann",
      run (attempt 5000000 "ann" false ∷ check 6000000 "bob" ∷ []) held,
    )
run-check_locked_example =
    run-check_locked "ann" 64000000 (attempt 5000000 "ann" false ∷ check 6000000 "bob" ∷ []) held
      10000000 ((omega arith, λ e. cc), (omega arith, tt)) (omega arith) held_until

init-IsChronological : IsChronological 0 (init strict)
unfolding Dict.get
init-IsChronological = record { deques = λ j. (tt, tt) }

-- Here the lockout is shorter than the window.
abbrev brief : Limiter
brief = record {
  config = record { max_attempts = 1; window_seconds = 10; lockout_seconds = 5 };
  attempts = ("ann", 1000000 ∷ []) ∷ [];
  lockouts = ("ann", 7000000) ∷ [];
}

check-run-failures_example :
    (passes (check_rate_limit 4000000 "ann" (run (failures "ann" (1 ∷ 2 ∷ 3 ∷ [])) (init strict))).0
      ≡ false)
    × (Dict.get "ann"
          (check_rate_limit 4000000 "ann"
            (run (failures "ann" (1 ∷ 2 ∷ 3 ∷ [])) (init strict))).1.lockouts
        ≡ some 64000000)
unfolding Dict.get
check-run-failures_example =
    check-run-failures "ann" (1 ∷ 2 ∷ 3 ∷ []) (init strict) 4000000 refl refl (omega arith)
