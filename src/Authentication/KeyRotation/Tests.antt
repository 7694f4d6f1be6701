-- ===== src/Authentication/KeyRotation/Tests.antt =====
-- `KeyRotationManager` on concrete calls, with a storage that holds the keys in the world and fails to save.
use optorch.Base.{◌*◌, ◌≡◌, refl, [], ◌∷◌, Option, none, some, ok, raise, In, arith}
use optorch.Authentication.KeyRotation.{
  day, Key, Keys, Draw, KeyRotationManager, get_current_key, get_verification_keys, current_loaded,
  current_or_rotate, load_keys, load_cached, load_stored, loaded,
}
use optorch.Authentication.KeyRotation.Grace.{IsSound, signing_key-verifies}
use optorch.Authentication.KeyRotation.Held.{got_current, rotate, run}

abbrev first : Key
first = record {
  kid = "k1";
  secret = "s1";
  algorithm = "HS256";
  issued_at = 0;
  expires_at = 97 * day;
}

abbrev manager : KeyRotationManager (Option Keys)
manager = record {
  storage = some (record {
    get_jwt_keys = λ world. (ok (some (record { current = some first; archived = [] })), world);
    save_jwt_key = λ keys world. (raise tt, world);
  });
  rotation_days = 90;
  grace_period_days = 7;
  keys_cache = none;
}

abbrev draw : Draw
draw = record { drawn_kid = "k2"; drawn_secret = "s2" }

abbrev cached : KeyRotationManager (Option Keys)
cached = record manager { keys_cache = some (record { current = some first; archived = [] }) }

manager-IsSound : IsSound 90 7 manager
manager-IsSound = record { rotates = refl; graces = refl; cache = tt; storage = λ world. refl }

first_current : get_current_key (89 * day) draw manager none ≡ (ok first, cached, none)
unfolding get_current_key current_loaded current_or_rotate load_keys load_cached load_stored loaded
first_current = refl

signing_key-verifies_example :
    let (n, w) = run (got_current (90 * day) draw ∷ rotate (91 * day) draw ∷ []) (cached, none) in
    In first (get_verification_keys (96 * day) n w).0
signing_key-verifies_example =
    signing_key-verifies manager none (89 * day) draw first cached none
      (got_current (90 * day) draw ∷ rotate (91 * day) draw ∷ []) (96 * day) (omega arith)
      manager-IsSound first_current (omega arith) (omega arith)
