-- ===== src/Authentication/KeyRotation/Grace.antt =====
-- A key that was handed out for signing stays among the keys for verification.
use optorch.Base.{
  ℕ, ◌+◌, ◌*◌, ◌≤◌, ◌<◌, ◌≡◌, refl, sym, subst, ◌⊎◌, inl, inr, false, List, Option, none, some,
  Outcome, ok, raise, leb, if_both, All, In, arith,
}
use optorch.Authentication.KeyRotation.{
  day, Key, Keys, Draw, Failure, Storage, KeyRotationManager, loaded, load_stored, load_cached,
  load_keys, save_stored, save_keys, new_key, rotated, with_key, rotate_key, age, current_or_rotate,
  get_current_key, get_verification_keys, rotate_loaded, current_loaded,
}
use optorch.Authentication.KeyRotation.Held.{
  Call, time, run, Cached, All-before, run-Cached, get_verification_keys-In,
}

-- The current key runs out when the settings say.
abbrev pub IsIssued : ℕ → ℕ → Option Key → Type 0
IsIssued rotation grace none = Unit
IsIssued rotation grace (some key) = key.expires_at ≡ key.issued_at + (rotation + grace) * day

abbrev pub IsStored : {W : Type 0} → ℕ → ℕ → Outcome (Unit {0}) (Option Keys) × W → Type 0
IsStored rotation grace (ok (some keys), world) = IsIssued rotation grace keys.current
IsStored rotation grace (ok none, world) = Unit
IsStored rotation grace (raise problem, world) = Unit

abbrev pub IsStorage : {W : Type 0} → ℕ → ℕ → Option (Storage W) → Type 0
IsStorage rotation grace none = Unit
IsStorage {W} rotation grace (some storage) =
    (world : W) → IsStored rotation grace (storage.get_jwt_keys world)

abbrev pub IsCache : ℕ → ℕ → Option Keys → Type 0
IsCache rotation grace none = Unit
IsCache rotation grace (some keys) = IsIssued rotation grace keys.current

-- The settings are these, and the cache and the storage hold keys of these settings.
pub record IsSound {W : Type 0} (rotation grace : ℕ) (m : KeyRotationManager W) : Type 0 where
  pub rotates : m.rotation_days ≡ rotation
  pub graces : m.grace_period_days ≡ grace
  pub cache : IsCache rotation grace m.keys_cache
  pub storage : IsStorage rotation grace m.storage

module _ {W : Type 0} (rotation grace : ℕ) where
  abbrev IsLoaded : Keys × KeyRotationManager W × W → Type 0
  IsLoaded (keys, m, world) =
      IsSound rotation grace m
      × IsIssued rotation grace keys.current
      × ((keys.current ≡ none) ⊎ (m.keys_cache ≡ some keys))

  load_keys-IsLoaded :
      (m : KeyRotationManager W) (world : W)
      → IsSound rotation grace m
      → IsLoaded (load_keys m world)
  unfolding load_keys load_cached load_stored loaded
  load_keys-IsLoaded m world sound = cached m.keys_cache refl sound.cache
    where
      answered :
          (answer : Outcome (Unit {0}) (Option Keys) × W)
          → IsStored rotation grace answer
          → IsLoaded (loaded answer m)
      answered (ok (some keys), w) h = (
        record {
          rotates = sound.rotates;
          graces = sound.graces;
          cache = h;
          storage = sound.storage;
        },
        h,
        inr refl,
      )
      answered (ok none, w) h = (sound, tt, inl refl)
      answered (raise problem, w) h = (sound, tt, inl refl)

      stored :
          (o : Option (Storage W)) → IsStorage rotation grace o → IsLoaded (load_stored o m world)
      stored none h = (sound, tt, inl refl)
      stored (some storage) h = answered (storage.get_jwt_keys world) (h world)

      cached :
          (o : Option Keys)
          → m.keys_cache ≡ o
          → IsCache rotation grace o
          → IsLoaded (load_cached o m world)
      cached none e h = stored m.storage sound.storage
      cached (some keys) e h = (sound, h, inr e)

  -- A key that is returned is held, and outlives the grace period.
  abbrev IsGood : ℕ → Outcome Failure Key × KeyRotationManager W × W → Type 0
  IsGood now (ok key, m, world) = Cached key m.keys_cache × (now + grace * day < key.expires_at)
  IsGood now (raise problem, m, world) = Unit

  with_key-IsGood :
      (now : ℕ) (key : Key) (result : Outcome Failure (Unit {0})) (m : KeyRotationManager W)
      (world : W)
      → Cached key m.keys_cache
      → now + grace * day < key.expires_at
      → IsGood now (with_key key (result, m, world))
  with_key-IsGood now key (ok done) m world held h = (held, h)
  with_key-IsGood now key (raise problem) m world held h = tt

  rotate_loaded-IsGood :
      (now : ℕ) (draw : Draw) (keys : Keys) (m : KeyRotationManager W) (world : W)
      → 0 < rotation
      → m.rotation_days ≡ rotation
      → m.grace_period_days ≡ grace
      → IsGood now (rotate_loaded now draw (keys, m, world))
  unfolding rotate_loaded new_key save_keys rotated
  rotate_loaded-IsGood now draw keys m world h hr hg =
      let new = new_key now draw m in
      with_key-IsGood now new (save_stored m.storage (rotated now new keys) world).0
        (record m { keys_cache = some (rotated now new keys) })
        (save_stored m.storage (rotated now new keys) world).1 (inl refl) (omega (arith, hr, hg, h))

  rotate_key-IsGood :
      (now : ℕ) (draw : Draw) (m : KeyRotationManager W) (world : W)
      → 0 < rotation
      → IsSound rotation grace m
      → IsGood now (rotate_key now draw m world)
  unfolding rotate_key
  rotate_key-IsGood now draw m world h sound =
      let l = load_keys m world in
      let fine = load_keys-IsLoaded m world sound in
      rotate_loaded-IsGood now draw l.0 l.1 l.2 h fine.0.rotates fine.0.graces

  current_or_rotate-IsGood :
      (o : Option Key) (keys : Keys) (now : ℕ) (draw : Draw) (m : KeyRotationManager W) (world : W)
      → 0 < rotation
      → keys.current ≡ o
      → IsSound rotation grace m
      → IsIssued rotation grace o
      → (o ≡ none) ⊎ (m.keys_cache ≡ some keys)
      → IsGood now (current_or_rotate o now draw m world)
  unfolding current_or_rotate
  current_or_rotate-IsGood none keys now draw m world h e sound issued cached =
      rotate_key-IsGood now draw m world h sound
  current_or_rotate-IsGood (some key) keys now draw m world h e sound issued (inl missing) =
      ground (arith, missing)
  current_or_rotate-IsGood (some key) keys now draw m world h e sound issued (inr cached) =
      if_both (IsGood now) (leb m.rotation_days (age now key)) (rotate_key now draw m world)
        (ok key, m, world) (λ _. rotate_key-IsGood now draw m world h sound)
        (λ young. (
          subst (Cached key) (sym cached) (inl e),
          young_enough (leb_false m.rotation_days (age now key) young),
        ))
    where
      leb_false : (a b : ℕ) → leb a b ≡ false → b < a
      leb_false a b f = ground (arith, f)

      young_enough : age now key < m.rotation_days → now + grace * day < key.expires_at
      young_enough young = omega (arith, young, issued, sound.rotates)

  get_current_key-IsGood :
      (now : ℕ) (draw : Draw) (m : KeyRotationManager W) (world : W)
      → 0 < rotation
      → IsSound rotation grace m
      → IsGood now (get_current_key now draw m world)
  unfolding get_current_key current_loaded
  get_current_key-IsGood now draw m world h sound =
      let l = load_keys m world in
      let (fine, issued, cached) = load_keys-IsLoaded m world sound in
      current_or_rotate-IsGood l.0.current l.0 now draw l.1 l.2 h refl fine issued cached

-- A key that `get_current_key` returned for signing is among the keys for verification for at least the
-- grace period from then on, whatever calls are made in between, rotations and failures of the storage
-- included. (The rotation period is not zero, and what the storage holds was issued with the same
-- settings.)
pub signing_key-verifies :
    {W : Type 0} (m : KeyRotationManager W) (world : W) (now : ℕ) (draw : Draw) (key : Key)
    (m' : KeyRotationManager W) (world' : W) (calls : List Call) (at : ℕ)
    → 0 < m.rotation_days
    → IsSound m.rotation_days m.grace_period_days m
    → get_current_key now draw m world ≡ (ok key, m', world')
    → All (λ c. time c ≤ now + m.grace_period_days * day) calls
    → at ≤ now + m.grace_period_days * day
    → let (n, w) = run calls (m', world') in In key (get_verification_keys at n w).0
signing_key-verifies m world now draw key m' world' calls at h sound e before soon =
    let (held, lasts) =
      subst (IsGood m.rotation_days m.grace_period_days now) e
        (get_current_key-IsGood m.rotation_days m.grace_period_days now draw m world h sound) in
    let s = run calls (m', world') in
    get_verification_keys-In key at s.0 s.1 (omega (arith, lasts, soon)) (
      run-Cached key calls m' world'
        (All-before calls (now + m.grace_period_days * day) key.expires_at before lasts) held)
