-- ===== src/Events/Listeners/Sorting.antt =====
-- Sorting entries by their priorities, with an entry added or removed.
use optorch.Base.{
  ◌≡◌, refl, ℕ, ◌≤◌, Bool, true, false, List, [], ◌∷◌, ◌++◌, none, if◌then◌else◌, nat_eq, leb, sym,
  ap, subst, ◌∙◌, arith, if_both, leb→le, le→leb,
}
use optorch.Events.Listeners.{ListenerEntry, find, insert, sort, without}

nat_eq→eq : (a b : ℕ) → nat_eq a b ≡ true → a ≡ b
nat_eq→eq a b h = ground arith

-- no entry has a lower priority than this
unfoldable pub FromPriority : ℕ → List ListenerEntry → Type 0
FromPriority priority [] = Unit
FromPriority priority (entry ∷ entries) =
    (priority ≤ entry.priority) × FromPriority priority entries

unfoldable pub Sorted : List ListenerEntry → Type 0
Sorted [] = Unit
Sorted (entry ∷ entries) = FromPriority entry.priority entries × Sorted entries

-- after the entries of no higher priority
insert_last : ListenerEntry → List ListenerEntry → List ListenerEntry
insert_last entry [] = entry ∷ []
insert_last entry (first ∷ entries) =
    let later = insert_last entry entries in
    if leb first.priority entry.priority then first ∷ later else entry ∷ first ∷ entries

insert-insert_last :
    (x e : ListenerEntry) (entries : List ListenerEntry)
    → insert x (insert_last e entries) ≡ insert_last e (insert x entries)
unfolding insert insert_last
insert-insert_last x e [] = ground arith
insert-insert_last x e (first ∷ entries) = ground (arith, insert-insert_last x e entries)

sort-append :
    (entries : List ListenerEntry) (e : ListenerEntry)
    → sort (entries ++ (e ∷ [])) ≡ insert_last e (sort entries)
unfolding sort insert insert_last
sort-append [] e = refl
sort-append (x ∷ entries) e =
    ap (insert x) (sort-append entries e) ∙ insert-insert_last x e (sort entries)

insert-FromPriority :
    (p : ℕ) (x : ListenerEntry) (entries : List ListenerEntry)
    → p ≤ x.priority
    → FromPriority p entries
    → FromPriority p (insert x entries)
unfolding insert FromPriority
insert-FromPriority p x [] low from = (low, tt)
insert-FromPriority p x (first ∷ entries) low (first_low, from) =
    if_both (FromPriority p) (leb x.priority first.priority) _ _ (λ _. (low, (first_low, from)))
      (λ _. (first_low, insert-FromPriority p x entries low from))

FromPriority-lower :
    (p q : ℕ) (entries : List ListenerEntry)
    → p ≤ q
    → FromPriority q entries
    → FromPriority p entries
unfolding FromPriority
FromPriority-lower p q [] low from = tt
FromPriority-lower p q (entry ∷ entries) low (first, from) =
    (ground (arith, low, first), FromPriority-lower p q entries low from)

insert-Sorted :
    (x : ListenerEntry) (entries : List ListenerEntry) → Sorted entries → Sorted (insert x entries)
unfolding insert Sorted FromPriority
insert-Sorted x [] sorted = (tt, tt)
insert-Sorted x (first ∷ entries) (from, sorted) =
    if_both Sorted (leb x.priority first.priority) _ _
      (λ low. (
        (
          leb→le _ _ low,
          FromPriority-lower x.priority first.priority entries (leb→le _ _ low) from,
        ),
        (from, sorted),
      ))
      (λ high. (
        insert-FromPriority first.priority x entries (ground (arith, high)) from,
        insert-Sorted x entries sorted,
      ))

pub sort-Sorted : (entries : List ListenerEntry) → Sorted (sort entries)
unfolding sort Sorted
sort-Sorted [] = tt
sort-Sorted (x ∷ entries) = insert-Sorted x (sort entries) (sort-Sorted entries)

insert-first :
    (x : ListenerEntry) (entries : List ListenerEntry)
    → FromPriority x.priority entries
    → insert x entries ≡ x ∷ entries
unfolding insert FromPriority
insert-first x [] from = refl
insert-first x (first ∷ entries) (low, from) =
    ap (λ b. if b then x ∷ first ∷ entries else first ∷ insert x entries)
      (le→leb x.priority first.priority low)

sort-fixed : (entries : List ListenerEntry) → Sorted entries → sort entries ≡ entries
unfolding sort Sorted
sort-fixed [] sorted = refl
sort-fixed (x ∷ entries) (from, sorted) =
    ap (insert x) (sort-fixed entries sorted) ∙ insert-first x entries from

-- an entry that comes to a sorted list goes where it would go when all are sorted
pub sort-sort :
    (entries : List ListenerEntry) (e : ListenerEntry)
    → sort (sort entries ++ (e ∷ [])) ≡ sort (entries ++ (e ∷ []))
sort-sort entries e =
    sort-append (sort entries) e
    ∙ ap (insert_last e) (sort-fixed (sort entries) (sort-Sorted entries))
    ∙ sym (sort-append entries e)

find-insert_other :
    (listener : ℕ) (x : ListenerEntry) (entries : List ListenerEntry)
    → nat_eq x.listener listener ≡ false
    → find listener (insert x entries) ≡ find listener entries
unfolding find insert
find-insert_other listener x [] other = ground (arith, other)
find-insert_other listener x (first ∷ entries) other =
    ground (arith, other, find-insert_other listener x entries other)

-- a listener that is nowhere is nowhere in the sorted list
find-sort :
    (listener : ℕ) (entries : List ListenerEntry)
    → find listener entries ≡ none
    → find listener (sort entries) ≡ none
unfolding find sort
find-sort listener [] missing = refl
find-sort listener (x ∷ entries) missing =
    find-insert_other listener x (sort entries) (ground (arith, missing))
    ∙ find-sort listener entries (ground (arith, missing))

without-insert_self :
    (listener : ℕ) (x : ListenerEntry) (entries : List ListenerEntry)
    → nat_eq x.listener listener ≡ true
    → find listener entries ≡ none
    → without listener (insert x entries) ≡ entries
unfolding find insert without
without-insert_self listener x [] same missing = ground (arith, same)
without-insert_self listener x (first ∷ entries) same missing =
    ground (arith, same, missing, without-insert_self listener x entries same)

without-FromPriority :
    (p listener : ℕ) (entries : List ListenerEntry)
    → FromPriority p entries
    → FromPriority p (without listener entries)
unfolding without FromPriority
without-FromPriority p listener [] from = tt
without-FromPriority p listener (entry ∷ entries) (low, from) =
    if_both (FromPriority p) (nat_eq entry.listener listener) _ _ (λ _. from)
      (λ _. (low, without-FromPriority p listener entries from))

without-insert_other :
    (listener : ℕ) (x : ListenerEntry) (entries : List ListenerEntry)
    → nat_eq x.listener listener ≡ false
    → Sorted entries
    → without listener (insert x entries) ≡ insert x (without listener entries)
unfolding insert without Sorted FromPriority
without-insert_other listener x [] other sorted = ground (arith, other)
without-insert_other listener x (first ∷ entries) other (from, sorted) =
    if_both
      (λ (l : List ListenerEntry).
        without listener l ≡ insert x (without listener (first ∷ entries)))
      (leb x.priority first.priority) _ _
      (λ low.
        ap (λ b. if b then first ∷ entries else x ∷ without listener (first ∷ entries)) other
        ∙ sym (
            insert-first x (without listener (first ∷ entries)) (
              without-FromPriority x.priority listener (first ∷ entries) (
                leb→le _ _ low,
                FromPriority-lower x.priority first.priority entries (leb→le _ _ low) from,
              ))))
      (λ high. ground (arith, high, without-insert_other listener x entries other sorted))

-- no listener has two entries
unfoldable pub Once : List ListenerEntry → Type 0
Once [] = Unit
Once (entry ∷ entries) = (find entry.listener entries ≡ none) × Once entries

-- an entry can be removed before or after the sort
pub without-sort :
    (listener : ℕ) (entries : List ListenerEntry)
    → Once entries
    → without listener (sort entries) ≡ sort (without listener entries)
unfolding sort without Once
without-sort listener [] once = refl
without-sort listener (x ∷ entries) (missing, once) =
    by_test (nat_eq x.listener listener) refl (without-sort listener entries once)
  where
    by_test :
        (b : Bool)
        → nat_eq x.listener listener ≡ b
        → without listener (sort entries) ≡ sort (without listener entries)
        → without listener (insert x (sort entries))
          ≡ sort (if b then entries else x ∷ without listener entries)
    by_test true same later = without-insert_self listener x (sort entries) same (
        find-sort listener entries
          (subst (λ l. find l entries ≡ none) (nat_eq→eq x.listener listener same) missing))
    by_test false other later =
        without-insert_other listener x (sort entries) other (sort-Sorted entries)
        ∙ ap (insert x) later

find-without :
    (l listener : ℕ) (entries : List ListenerEntry)
    → find l entries ≡ none
    → find l (without listener entries) ≡ none
unfolding find without
find-without l listener [] missing = refl
find-without l listener (entry ∷ entries) missing =
    ground (arith, missing, find-without l listener entries)

pub without-Once :
    (listener : ℕ) (entries : List ListenerEntry) → Once entries → Once (without listener entries)
unfolding without Once
without-Once listener [] once = tt
without-Once listener (entry ∷ entries) (missing, once) =
    if_both Once (nat_eq entry.listener listener) _ _ (λ _. once)
      (λ _.
        (find-without entry.listener listener entries missing, without-Once listener entries once))

find-append :
    (listener : ℕ) (entries : List ListenerEntry) (e : ListenerEntry)
    → find listener entries ≡ none
    → nat_eq e.listener listener ≡ false
    → find listener (entries ++ (e ∷ [])) ≡ none
unfolding find
find-append listener [] e missing other = ground (arith, other)
find-append listener (entry ∷ entries) e missing other =
    ground (arith, missing, other, find-append listener entries e)

pub append-Once :
    (entries : List ListenerEntry) (e : ListenerEntry)
    → Once entries
    → find e.listener entries ≡ none
    → Once (entries ++ (e ∷ []))
unfolding Once find
append-Once [] e once missing = (refl, tt)
append-Once (entry ∷ entries) e (unique, once) missing = (
  find-append entry.listener entries e unique (ground (arith, missing)),
  append-Once entries e once (ground (arith, missing)),
)
