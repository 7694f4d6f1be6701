-- ===== src/Events/Listeners/Order.antt =====
-- The order in which listeners are called.
use optorch.Base.{◌≡◌, refl, ℕ, List, [], ◌∷◌, ◌++◌, Option, none, some, sym, ap, subst, ◌∙◌}
use optorch.Events.Listeners.{
  ListenerEntry, ListenerManager, empty, find, sort, without, added, removed, add, remove,
  Operation, adding, removing, run,
}
use optorch.Events.Listeners.Sorting.{
  Sorted, Once, sort-Sorted, sort-sort, without-sort, without-Once, append-Once,
}

-- the entries are those of the dict, which has each listener once, sorted in the order of their registration
unfoldable pub IsValid : ListenerManager → Type 0
IsValid manager = (manager.entries ≡ sort manager.listener_map) × Once manager.listener_map

add-IsValid :
    (entry : ListenerEntry) (manager : ListenerManager)
    → IsValid manager
    → IsValid (add entry manager).1
unfolding add IsValid
add-IsValid entry manager (sorted, once) = by_entry (find entry.listener manager.listener_map) refl
  where
    by_entry :
        (found : Option ListenerEntry)
        → find entry.listener manager.listener_map ≡ found
        → IsValid (added found entry manager).1
    by_entry (some old) e = (sorted, once)
    by_entry none e = (
      ap (λ entries. sort (entries ++ (entry ∷ []))) sorted ∙ sort-sort manager.listener_map entry,
      append-Once manager.listener_map entry once e,
    )

remove-IsValid :
    (listener : ℕ) (manager : ListenerManager) → IsValid manager → IsValid (remove listener manager)
unfolding remove IsValid
remove-IsValid listener manager (sorted, once) = by_entry (find listener manager.listener_map)
  where
    by_entry : (found : Option ListenerEntry) → IsValid (removed found listener manager)
    by_entry none = (sorted, once)
    by_entry (some entry) = (
      ap (without listener) sorted ∙ without-sort listener manager.listener_map once,
      without-Once listener manager.listener_map once,
    )

run-IsValid :
    (operations : List Operation) (manager : ListenerManager)
    → IsValid manager
    → IsValid (run operations manager)
unfolding run
run-IsValid [] manager valid = valid
run-IsValid (adding entry ∷ operations) manager valid =
    run-IsValid operations (add entry manager).1 (add-IsValid entry manager valid)
run-IsValid (removing listener ∷ operations) manager valid =
    run-IsValid operations (remove listener manager) (remove-IsValid listener manager valid)

-- After any registrations and removals from the start: the list of entries is sorted by priority, it is the stable sort
-- of the entries of the dict in the order of their registration, and no listener is in the dict twice.
pub run-Sorted :
    (operations : List Operation)
    → Sorted (run operations empty).entries
      × ((run operations empty).entries ≡ sort (run operations empty).listener_map)
      × Once (run operations empty).listener_map
unfolding IsValid sort Once
run-Sorted operations =
    let (sorted, once) = run-IsValid operations empty empty-IsValid in
    (subst Sorted (sym sorted) (sort-Sorted (run operations empty).listener_map), sorted, once)
  where
    empty-IsValid : IsValid empty
    empty-IsValid = (refl, tt)
