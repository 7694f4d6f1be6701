-- ===== src/History/Filters/Duplicates.antt =====
-- What the filter of duplicates keeps.
use optorch.Base.{
  ◌≡◌, refl, sym, subst, ap, Bool, false, String, List, [], ◌∷◌, Option, none, some, elem, any,
  ◌||◌, ◌==◌, inl, inr, Bool-cases, eq_iff, arith, if◌then◌else◌, if_both,
}
use optorch.History.Filters.{Message, duplicate_key, keep_unseen, unseen, filter_duplicates}

abbrev pub FreshThen : Option String → List String → (List String → Type 0) → Type 0
FreshThen none seen others = others seen
FreshThen (some k) seen others = (elem k seen ≡ false) × others (k ∷ seen)

-- No key is one of those seen or occurs twice.
unfoldable pub IsFresh : (Message → Option String) → List String → List Message → Type 0
IsFresh key seen [] = Unit
IsFresh key seen (msg ∷ messages) = FreshThen (key msg) seen (λ keys. IsFresh key keys messages)

module _ (key : Message → Option String) where
  unseen-IsFresh :
      (messages : List Message) (seen : List String) → IsFresh key seen (unseen key messages seen)
  unfolding unseen keep_unseen IsFresh
  unseen-IsFresh [] seen = tt
  unseen-IsFresh (msg ∷ messages) seen = go (key msg) refl (unseen-IsFresh messages)
    where
      go :
          (k : Option String)
          → key msg ≡ k
          → ((keys : List String) → IsFresh key keys (unseen key messages keys))
          → IsFresh key seen (keep_unseen k msg seen (unseen key messages))
      go none e rest =
          subst (λ k. FreshThen k seen (λ keys. IsFresh key keys (unseen key messages seen)))
            (sym e) (rest seen)
      go (some k) e rest =
          if_both (IsFresh key seen) (elem k seen) (unseen key messages seen)
            (msg ∷ unseen key messages (k ∷ seen)) (λ _. rest seen)
            (λ fresh.
              subst
                (λ o. FreshThen o seen (λ keys. IsFresh key keys (unseen key messages (k ∷ seen))))
                (sym e) (fresh, rest (k ∷ seen)))

  IsFresh-unseen :
      (messages : List Message) (seen : List String)
      → IsFresh key seen messages
      → unseen key messages seen ≡ messages
  unfolding unseen keep_unseen IsFresh
  IsFresh-unseen [] seen h = refl
  IsFresh-unseen (msg ∷ messages) seen h = go (key msg) h (IsFresh-unseen messages)
    where
      go :
          (k : Option String)
          → FreshThen k seen (λ keys. IsFresh key keys messages)
          → ((keys : List String) → IsFresh key keys messages → unseen key messages keys ≡ messages)
          → keep_unseen k msg seen (unseen key messages) ≡ msg ∷ messages
      go none h rest = ap (msg ∷◌) (rest seen h)
      go (some k) h rest = rw h.0 (ap (msg ∷◌) (rest (k ∷ seen) h.1))

abbrev pub has_key : String → Option String → Bool
has_key k none = false
has_key k (some j) = k == j

abbrev pub is_repeated : (Message → Option String) → Option String → List Message → Bool
is_repeated key none earlier = false
is_repeated key (some k) earlier = any (λ msg. has_key k (key msg)) earlier

-- the messages whose key no earlier message has
unfoldable pub firsts : (Message → Option String) → List Message → List Message → List Message
firsts key [] earlier = []
firsts key (msg ∷ messages) earlier =
    let rest = firsts key messages (msg ∷ earlier) in
    if is_repeated key (key msg) earlier then rest else msg ∷ rest

module _ (key : Message → Option String) where
  -- the keys seen are those of the earlier messages
  abbrev IsSeen : List String → List Message → Type 0
  IsSeen seen earlier = (k : String) → elem k seen ≡ any (λ msg. has_key k (key msg)) earlier

  unseen-firsts :
      (messages : List Message) (seen : List String) (earlier : List Message)
      → IsSeen seen earlier
      → unseen key messages seen ≡ firsts key messages earlier
  unfolding unseen firsts keep_unseen elem any
  unseen-firsts [] seen earlier h = refl
  unseen-firsts (msg ∷ messages) seen earlier h =
      go (key msg) refl (λ keys. unseen-firsts messages keys (msg ∷ earlier))
    where
      go :
          (o : Option String)
          → key msg ≡ o
          → ((keys : List String)
              → IsSeen keys (msg ∷ earlier)
              → unseen key messages keys ≡ firsts key messages (msg ∷ earlier))
          → keep_unseen o msg seen (unseen key messages) ≡ (
              if is_repeated key o earlier
              then firsts key messages (msg ∷ earlier)
              else msg ∷ firsts key messages (msg ∷ earlier))
      go none e rest = ap (msg ∷◌) (rest seen (λ k. rw e (h k)))
      go (some j) e rest = elim (Bool-cases (elem j seen)) [
        | inl old ↦
            ground
              (arith, old, h j, rest seen (λ k. rw e (ground (arith, old, h k, h j, eq_iff k j))))
        | inr new ↦
            ground (arith, new, h j, rest (j ∷ seen) (λ k. rw e (ap (λ b. k == j || b) (h k))))
      ]

-- The filter of duplicates keeps, in their order, exactly the messages whose key no earlier message has
-- and those without a key, and filtering the result again changes nothing.
pub filter_duplicates-firsts :
    (by_content by_id : Bool) (messages : List Message)
    → (filter_duplicates by_content by_id messages
        ≡ firsts (duplicate_key by_content by_id) messages [])
      × (filter_duplicates by_content by_id (filter_duplicates by_content by_id messages)
          ≡ filter_duplicates by_content by_id messages)
unfolding filter_duplicates elem any
filter_duplicates-firsts by_content by_id messages =
    let key = duplicate_key by_content by_id in
    (
      unseen-firsts key messages [] [] (λ k. refl),
      IsFresh-unseen key (unseen key messages []) [] (unseen-IsFresh key messages []),
    )
