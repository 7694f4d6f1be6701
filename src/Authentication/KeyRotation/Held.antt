-- ===== src/Authentication/KeyRotation/Held.antt =====
-- A key that the cache holds is held after any calls until it expires.
use optorch.Base.{
  ℕ, ◌≤◌, ◌<◌, ◌≡◌, refl, sym, subst, ◌⊎◌, inl, inr, String, List, [], ◌∷◌, ◌++◌, Option, none,
  some, Outcome, ok, raise, leb, lt→ltb, if_both, All, In, In-append_left, In-append_right, In-keep,
  arith,
}
use optorch.Authentication.KeyRotation.{
  Key, Keys, Draw, Failure, KeyRotationManager, load_cached, load_keys, save_stored, save_keys,
  new_key, is_unexpired, archive, rotated, with_key, rotate_key, age, current_or_rotate,
  get_current_key, current_first, valid_keys, get_verification_keys, get_key_by_kid, rotate_loaded,
  current_loaded, verification_loaded, find_loaded,
}

-- The calls of a manager, with the times they read.
pub data Call : Type 0 where
  got_current : ℕ → Draw → Call
  rotate : ℕ → Draw → Call
  got_verification : ℕ → Call
  looked_up : ℕ → String → Call

abbrev pub time : Call → ℕ
time (got_current now draw) = now
time (rotate now draw) = now
time (got_verification now) = now
time (looked_up now kid) = now

module _ {W : Type 0} where
  abbrev pub after : {A : Type 0} → A × KeyRotationManager W × W → KeyRotationManager W × W
  after (answer, m, world) = (m, world)

  pub step : Call → KeyRotationManager W × W → KeyRotationManager W × W
  step (got_current now draw) (m, world) = after (get_current_key now draw m world)
  step (rotate now draw) (m, world) = after (rotate_key now draw m world)
  step (got_verification now) (m, world) = after (get_verification_keys now m world)
  step (looked_up now kid) (m, world) = after (get_key_by_kid now kid m world)

  pub run : List Call → KeyRotationManager W × W → KeyRotationManager W × W
  run [] s = s
  run (c ∷ cs) s = run cs (step c s)

-- The key is the current one or archived.
abbrev pub Held : Key → Keys → Type 0
Held key keys = (keys.current ≡ some key) ⊎ In key keys.archived

abbrev pub Cached : Key → Option Keys → Type 0
Cached key none = ⊥
Cached key (some keys) = Held key keys

Held-rotated :
    (key new : Key) (now : ℕ) (keys : Keys)
    → now < key.expires_at
    → Held key keys
    → Held key (rotated now new keys)
unfolding rotated archive
Held-rotated key new now keys h held =
    inr (In-keep (is_unexpired now) key _ (kept keys held) (lt→ltb _ _ h))
  where
    kept : (keys : Keys) → Held key keys → In key (archive keys)
    kept keys (inl here) =
        subst
          (λ (o : Option Key).
            In key (elim o [ none ↦ keys.archived | some k ↦ keys.archived ++ (k ∷ []) ]))
          (sym here) (In-append_right key keys.archived (key ∷ []) (inl refl))
    kept keys (inr there) = go keys.current
      where
        go :
            (o : Option Key)
            → In key (elim o [ none ↦ keys.archived | some k ↦ keys.archived ++ (k ∷ []) ])
        go none = there
        go (some k) = In-append_left key keys.archived (k ∷ []) there

In-current_first :
    (key : Key) (o : Option Key) (keys : List Key)
    → (o ≡ some key) ⊎ In key keys
    → In key (current_first o keys)
unfolding current_first
In-current_first key none keys (inl here) = ground (arith, here)
In-current_first key none keys (inr there) = there
In-current_first key (some k) keys (inl here) = inl (ground (arith, here))
In-current_first key (some k) keys (inr there) = inr there

Held-valid :
    (key : Key) (now : ℕ) (keys : Keys)
    → now < key.expires_at
    → Held key keys
    → In key (valid_keys now keys)
unfolding valid_keys
Held-valid key now keys h (inl here) = In-current_first key keys.current _ (inl here)
Held-valid key now keys h (inr there) =
    In-current_first key keys.current _
      (inr (In-keep (is_unexpired now) key keys.archived there (lt→ltb _ _ h)))

pub All-before :
    (calls : List Call) (n t : ℕ)
    → All (λ c. time c ≤ n) calls
    → n < t
    → All (λ c. time c < t) calls
All-before [] n t h lt = tt
All-before (c ∷ cs) n t h lt = (omega (arith, h.0, lt), All-before cs n t h.1 lt)

module _ {W : Type 0} (key : Key) where
  -- with a cache that holds the key, loading gives keys that hold it and changes nothing
  pub load_keys-Held :
      (m : KeyRotationManager W) (world : W)
      → Cached key m.keys_cache
      → (keys : Keys) × (load_keys m world ≡ (keys, m, world)) × Held key keys
  unfolding load_keys load_cached
  load_keys-Held m world held = go m.keys_cache held
    where
      go :
          (o : Option Keys)
          → Cached key o
          → (keys : Keys) × (load_cached o m world ≡ (keys, m, world)) × Held key keys
      go none h = absurd h
      go (some keys) h = (keys, refl, h)

  with_key-after :
      (new : Key) (result : Outcome Failure (Unit {0})) (m : KeyRotationManager W) (world : W)
      → after (with_key new (result, m, world)) ≡ (m, world)
  with_key-after new (ok done) m world = refl
  with_key-after new (raise problem) m world = refl

  rotate_key-Cached :
      (now : ℕ) (draw : Draw) (m : KeyRotationManager W) (world : W)
      → now < key.expires_at
      → Cached key m.keys_cache
      → Cached key (after (rotate_key now draw m world)).0.keys_cache
  unfolding rotate_key rotate_loaded save_keys
  rotate_key-Cached now draw m world h held =
      let (keys, e, there) = load_keys-Held m world held in
      let new = new_key now draw m in
      subst (λ l. Cached key (after (rotate_loaded now draw l)).0.keys_cache) (sym e)
        (subst (λ (s : KeyRotationManager W × W). Cached key s.0.keys_cache)
          (sym (
            with_key-after new (save_stored m.storage (rotated now new keys) world).0
              (record m { keys_cache = some (rotated now new keys) })
              (save_stored m.storage (rotated now new keys) world).1))
          (Held-rotated key new now keys h there))

  current_or_rotate-Cached :
      (o : Option Key) (now : ℕ) (draw : Draw) (m : KeyRotationManager W) (world : W)
      → now < key.expires_at
      → Cached key m.keys_cache
      → Cached key (after (current_or_rotate o now draw m world)).0.keys_cache
  unfolding current_or_rotate
  current_or_rotate-Cached none now draw m world h held = rotate_key-Cached now draw m world h held
  current_or_rotate-Cached (some k) now draw m world h held =
      if_both
        (λ (r : Outcome Failure Key × KeyRotationManager W × W). Cached key (after r).0.keys_cache)
        (leb m.rotation_days (age now k)) _ _ (λ _. rotate_key-Cached now draw m world h held)
        (λ _. held)

  step-Cached :
      (c : Call) (m : KeyRotationManager W) (world : W)
      → time c < key.expires_at
      → Cached key m.keys_cache
      → Cached key (step c (m, world)).0.keys_cache
  unfolding step get_current_key current_loaded get_verification_keys verification_loaded
      get_key_by_kid find_loaded
  step-Cached (got_current now draw) m world h held =
      let (keys, e, there) = load_keys-Held m world held in
      subst (λ l. Cached key (after (current_loaded now draw l)).0.keys_cache) (sym e)
        (current_or_rotate-Cached keys.current now draw m world h held)
  step-Cached (rotate now draw) m world h held = rotate_key-Cached now draw m world h held
  step-Cached (got_verification now) m world h held =
      let (keys, e, there) = load_keys-Held m world held in
      subst (λ l. Cached key (after (verification_loaded now l)).0.keys_cache) (sym e) held
  step-Cached (looked_up now kid) m world h held =
      let (keys, e, there) = load_keys-Held m world held in
      subst (λ l. Cached key (after (find_loaded now kid l)).0.keys_cache) (sym e) held

  pub run-Cached :
      (calls : List Call) (m : KeyRotationManager W) (world : W)
      → All (λ c. time c < key.expires_at) calls
      → Cached key m.keys_cache
      → Cached key (run calls (m, world)).0.keys_cache
  unfolding run
  run-Cached [] m world h held = held
  run-Cached (c ∷ cs) m world h held =
      run-Cached cs (step c (m, world)).0 (step c (m, world)).1 h.1 (step-Cached c m world h.0 held)

  pub get_verification_keys-In :
      (now : ℕ) (m : KeyRotationManager W) (world : W)
      → now < key.expires_at
      → Cached key m.keys_cache
      → In key (get_verification_keys now m world).0
  unfolding get_verification_keys verification_loaded
  get_verification_keys-In now m world h held =
      let (keys, e, there) = load_keys-Held m world held in
      subst (λ l. In key (verification_loaded now l).0) (sym e) (Held-valid key now keys h there)
