-- ===== src/Authentication/KeyRotation.antt =====
-- `KeyRotationManager` of identity/authentication/key_rotation.py. Times are numbers of microseconds, and
-- each method reads the clock once. What `secrets.token_urlsafe` draws is an argument; the storage is a pair
-- of functions that act on a world and may raise. The background task, which only calls get_current_key
-- again and again, is not modelled.
pub mod Held
pub mod Grace
mod Tests
use Prim.Native.Nat.{◌/◌}
use optorch.Base.{
  ℕ, ◌+◌, ◌-◌, ◌*◌, Bool, true, false, String, List, [], ◌∷◌, ◌++◌, Option, none, some, Outcome, ok,
  raise, ltb, leb, if◌then◌else◌, ◌==◌, keep,
}

abbrev pub day : ℕ
day = 86400000000

pub record Key : Type 0 where
  pub kid : String
  pub secret : String
  pub algorithm : String
  pub issued_at : ℕ
  pub expires_at : ℕ

-- the dict with the keys "current" and "archived"
pub record Keys : Type 0 where
  pub current : Option Key
  pub archived : List Key

abbrev pub no_keys : Keys
no_keys = record { current = none; archived = [] }

-- what a new key is drawn as
pub record Draw : Type 0 where
  pub drawn_kid : String
  pub drawn_secret : String

-- `ConfigurationError`
pub data Failure : Type 0 where
  storage_unavailable : Failure

-- `storage.query` with the two queries, the JSON decoded and encoded
pub record Storage (W : Type 0) : Type 0 where
  pub get_jwt_keys : W → Outcome (Unit {0}) (Option Keys) × W
  pub save_jwt_key : Keys → W → Outcome (Unit {0}) (Unit {0}) × W

pub record KeyRotationManager (W : Type 0) : Type 0 where
  pub storage : Option (Storage W)
  pub rotation_days : ℕ
  pub grace_period_days : ℕ
  -- none is the empty dict
  pub keys_cache : Option Keys

module _ {W : Type 0} where
  unfoldable pub loaded :
      Outcome (Unit {0}) (Option Keys) × W → KeyRotationManager W → Keys × KeyRotationManager W × W
  loaded (ok (some keys), world) m = (keys, record m { keys_cache = some keys }, world)
  loaded (ok none, world) m = (no_keys, m, world)
  loaded (raise problem, world) m = (no_keys, m, world)

  unfoldable pub load_stored :
      Option (Storage W) → KeyRotationManager W → W → Keys × KeyRotationManager W × W
  load_stored none m world = (no_keys, m, world)
  load_stored (some storage) m world = loaded (storage.get_jwt_keys world) m

  unfoldable pub load_cached :
      Option Keys → KeyRotationManager W → W → Keys × KeyRotationManager W × W
  load_cached (some keys) m world = (keys, m, world)
  load_cached none m world = load_stored m.storage m world

  unfoldable pub load_keys : KeyRotationManager W → W → Keys × KeyRotationManager W × W
  load_keys m world = load_cached m.keys_cache m world

  unfoldable pub saved : Outcome (Unit {0}) (Unit {0}) × W → Outcome Failure (Unit {0}) × W
  saved (ok done, world) = (ok tt, world)
  saved (raise problem, world) = (raise storage_unavailable, world)

  unfoldable pub save_stored : Option (Storage W) → Keys → W → Outcome Failure (Unit {0}) × W
  save_stored none keys world = (ok tt, world)
  save_stored (some storage) keys world = saved (storage.save_jwt_key keys world)

  -- the cache is set before the storage is asked
  unfoldable pub save_keys :
      Keys → KeyRotationManager W → W → Outcome Failure (Unit {0}) × KeyRotationManager W × W
  save_keys keys m world =
      let (result, world) = save_stored m.storage keys world in
      (result, record m { keys_cache = some keys }, world)

  unfoldable pub new_key : ℕ → Draw → KeyRotationManager W → Key
  new_key now draw m = record {
    kid = draw.drawn_kid;
    secret = draw.drawn_secret;
    algorithm = "HS256";
    issued_at = now;
    expires_at = now + (m.rotation_days + m.grace_period_days) * day;
  }

abbrev pub is_unexpired : ℕ → Key → Bool
is_unexpired now key = ltb now key.expires_at

-- the old keys with the current one at their end
unfoldable pub archive : Keys → List Key
archive keys = elim keys.current [ none ↦ keys.archived | some key ↦ keys.archived ++ (key ∷ []) ]

unfoldable pub rotated : ℕ → Key → Keys → Keys
rotated now key keys = record {
  current = some key;
  archived = keep (is_unexpired now) (archive keys);
}

-- `(now - issued_at).days`
abbrev pub age : ℕ → Key → ℕ
age now key = (now - key.issued_at) / day

unfoldable pub current_first : Option Key → List Key → List Key
current_first none keys = keys
current_first (some key) keys = key ∷ keys

unfoldable pub valid_keys : ℕ → Keys → List Key
valid_keys now keys = current_first keys.current (keep (is_unexpired now) keys.archived)

module _ {W : Type 0} where
  abbrev pub with_key :
      Key
      → Outcome Failure (Unit {0}) × KeyRotationManager W × W
      → Outcome Failure Key × KeyRotationManager W × W
  with_key key (ok done, m, world) = (ok key, m, world)
  with_key key (raise problem, m, world) = (raise problem, m, world)

  -- Each method goes on with the keys that were loaded.
  unfoldable pub rotate_loaded :
      ℕ → Draw → Keys × KeyRotationManager W × W → Outcome Failure Key × KeyRotationManager W × W
  rotate_loaded now draw (keys, m, world) =
      let key = new_key now draw m in with_key key (save_keys (rotated now key keys) m world)

  unfoldable pub rotate_key :
      ℕ → Draw → KeyRotationManager W → W → Outcome Failure Key × KeyRotationManager W × W
  rotate_key now draw m world = rotate_loaded now draw (load_keys m world)

  unfoldable pub current_or_rotate :
      Option Key
      → ℕ
      → Draw
      → KeyRotationManager W
      → W
      → Outcome Failure Key × KeyRotationManager W × W
  current_or_rotate none now draw m world = rotate_key now draw m world
  current_or_rotate (some current) now draw m world =
      if leb m.rotation_days (age now current)
      then rotate_key now draw m world
      else (ok current, m, world)

  unfoldable pub current_loaded :
      ℕ → Draw → Keys × KeyRotationManager W × W → Outcome Failure Key × KeyRotationManager W × W
  current_loaded now draw (keys, m, world) = current_or_rotate keys.current now draw m world

  unfoldable pub get_current_key :
      ℕ → Draw → KeyRotationManager W → W → Outcome Failure Key × KeyRotationManager W × W
  get_current_key now draw m world = current_loaded now draw (load_keys m world)

  unfoldable pub verification_loaded :
      ℕ → Keys × KeyRotationManager W × W → List Key × KeyRotationManager W × W
  verification_loaded now (keys, m, world) = (valid_keys now keys, m, world)

  unfoldable pub get_verification_keys :
      ℕ → KeyRotationManager W → W → List Key × KeyRotationManager W × W
  get_verification_keys now m world = verification_loaded now (load_keys m world)

unfoldable pub find_archived : ℕ → String → List Key → Option Key
find_archived now kid [] = none
find_archived now kid (key ∷ keys) =
    let rest = find_archived now kid keys in
    if key.kid == kid then (if ltb now key.expires_at then some key else rest) else rest

unfoldable pub find_key : ℕ → String → Option Key → List Key → Option Key
find_key now kid none archived = find_archived now kid archived
find_key now kid (some key) archived =
    if key.kid == kid then some key else find_archived now kid archived

module _ {W : Type 0} where
  unfoldable pub find_loaded :
      ℕ → String → Keys × KeyRotationManager W × W → Option Key × KeyRotationManager W × W
  find_loaded now kid (keys, m, world) = (find_key now kid keys.current keys.archived, m, world)

  unfoldable pub get_key_by_kid :
      ℕ → String → KeyRotationManager W → W → Option Key × KeyRotationManager W × W
  get_key_by_kid now kid m world = find_loaded now kid (load_keys m world)
