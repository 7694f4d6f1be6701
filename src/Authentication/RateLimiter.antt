-- ===== src/Authentication/RateLimiter.antt =====
-- `SlidingWindowRateLimiter` of identity/authentication/rate_limiter.py. A time is a number of
-- microseconds, the resolution of `datetime`; the settings are whole seconds, as in the source.
-- Each method takes what `datetime.now(UTC)` reads.
pub mod Deques
pub mod Window
pub mod Failures
pub mod Lockout
mod Tests
use Prim.Native.Nat.{◌/◌}
use optorch.Base.{
  ℕ, ◌+◌, ◌-◌, ◌*◌, Bool, true, false, String, List, [], ◌∷◌, ◌++◌, Option, none, some, Outcome, ok,
  raise, ltb, leb, if◌then◌else◌, length, keep,
}
use optorch.Base.Dict
use optorch.Base.Dict.{Dict}

abbrev pub second : ℕ
second = 1000000

-- `RateLimitConfig` of identity/authentication/config.py, the fields that the limiter reads
pub record RateLimitConfig : Type 0 where
  pub max_attempts : ℕ
  pub window_seconds : ℕ
  pub lockout_seconds : ℕ

pub record RateLimitExceeded : Type 0 where
  pub retry_after_seconds : ℕ
  pub identifier : String

pub record Limiter : Type 0 where
  pub config : RateLimitConfig
  pub attempts : Dict (List ℕ)
  pub lockouts : Dict ℕ

abbrev pub init : RateLimitConfig → Limiter
init config = record { config = config; attempts = []; lockouts = [] }

-- `self._attempts[identifier]`, of a `defaultdict(deque)`
abbrev pub deque_of : String → Dict (List ℕ) → List ℕ
deque_of identifier d = elim (Dict.get identifier d) [ none ↦ [] | some ts ↦ ts ]

abbrev pub attempts_of : String → Limiter → List ℕ
attempts_of identifier s = deque_of identifier s.attempts

-- `while attempts and attempts[0] < cutoff: attempts.popleft()`, with the cutoff `now - window`
unfoldable pub drop_expired : ℕ → ℕ → List ℕ → List ℕ
drop_expired window now [] = []
drop_expired window now (t ∷ ts) =
    let rest = drop_expired window now ts in if ltb (t + window) now then rest else t ∷ ts

-- The second part of `check_rate_limit`: expired attempts go, and too many that are left lock out.
unfoldable pub check_window : ℕ → String → Limiter → Outcome RateLimitExceeded Unit × Limiter
check_window now identifier s =
    let attempts = drop_expired (s.config.window_seconds * second) now (attempts_of identifier s) in
    let pruned = record s { attempts = Dict.insert identifier attempts s.attempts } in
    if leb s.config.max_attempts (length attempts)
    then (
      raise (record { retry_after_seconds = s.config.lockout_seconds; identifier = identifier }),
      record pruned {
        lockouts = Dict.insert identifier (now + s.config.lockout_seconds * second) s.lockouts;
      },
    )
    else (ok tt, pruned)

pub lift_lockout : String → Limiter → Limiter
lift_lockout identifier s = record s {
  attempts = Dict.insert identifier [] s.attempts;
  lockouts = Dict.erase identifier s.lockouts;
}

unfoldable pub check_lockout :
    ℕ → String → Option ℕ → Limiter → Outcome RateLimitExceeded Unit × Limiter
check_lockout now identifier none s = check_window now identifier s
check_lockout now identifier (some lockout_until) s =
    if ltb now lockout_until
    then (
      raise (record {
        retry_after_seconds = (lockout_until - now) / second;
        identifier = identifier;
      }),
      s,
    )
    else check_window now identifier (lift_lockout identifier s)

unfoldable pub check_rate_limit : ℕ → String → Limiter → Outcome RateLimitExceeded Unit × Limiter
check_rate_limit now identifier s = check_lockout now identifier (Dict.get identifier s.lockouts) s

record_success : String → Limiter → Limiter
record_success identifier s = record s {
  attempts =
      if Dict.has identifier s.attempts then Dict.insert identifier [] s.attempts else s.attempts;
  lockouts = Dict.erase identifier s.lockouts;
}

record_failure : ℕ → String → Limiter → Limiter
record_failure now identifier s = record s {
  attempts = Dict.insert identifier (attempts_of identifier s ++ now ∷ []) s.attempts;
}

pub record_attempt : ℕ → String → Bool → Limiter → Limiter
record_attempt now identifier true s = record_success identifier s
record_attempt now identifier false s = record_failure now identifier s

-- `attempt >= cutoff`
abbrev pub in_window : ℕ → ℕ → ℕ → Bool
in_window window now t = leb now (t + window)

count_remaining : ℕ → String → Limiter → ℕ
count_remaining now identifier s =
    s.config.max_attempts
    - length (keep (in_window (s.config.window_seconds * second) now) (attempts_of identifier s))

-- The value of `get_remaining_attempts`. (Reading the `defaultdict` may also store an empty deque,
-- which no method can tell from a missing one.)
pub get_remaining_attempts : ℕ → String → Limiter → ℕ
unfolding count_remaining
get_remaining_attempts now identifier s = elim (Dict.get identifier s.lockouts) [
  | none ↦ count_remaining now identifier s
  | some lockout_until ↦ if ltb now lockout_until then 0 else count_remaining now identifier s
]

pub reset : String → Limiter → Limiter
reset identifier s = record s {
  attempts = Dict.erase identifier s.attempts;
  lockouts = Dict.erase identifier s.lockouts;
}

-- What callers do with a limiter, in the order of time.
pub data Event : Type 0 where
  check : ℕ → String → Event
  attempt : ℕ → String → Bool → Event
  admin_reset : ℕ → String → Event

pub step : Event → Limiter → Limiter
step (check now identifier) s = (check_rate_limit now identifier s).1
step (attempt now identifier success) s = record_attempt now identifier success s
step (admin_reset now identifier) s = reset identifier s

pub run : List Event → Limiter → Limiter
run [] s = s
run (e ∷ es) s = run es (step e s)
