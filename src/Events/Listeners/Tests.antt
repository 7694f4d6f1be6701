-- ===== src/Events/Listeners/Tests.antt =====
-- Concrete runs of `ListenerManager`.
use optorch.Base.{◌≡◌, refl, ℕ, false, List, [], ◌∷◌, none}
use optorch.Events.Listeners.{
  ListenerEntry, empty, Operation, adding, removing, run, add, remove, sort, insert, find, without,
}
use optorch.Events.Listeners.Sorting.{Sorted, Once}
use optorch.Events.Listeners.Order.{run-Sorted}

abbrev entry : ℕ → ℕ → ListenerEntry
entry listener priority = record {
  listener = listener;
  priority = priority;
  tags = none;
  blocking = false;
}

abbrev operations : List Operation
operations =
    adding (entry 1 50)
    ∷ adding (entry 2 0)
    ∷ adding (entry 3 50)
    ∷ adding (entry 1 0)
    ∷ removing 2
    ∷ []

-- the second registration of a listener changes nothing
in_order : (run operations empty).entries ≡ entry 1 50 ∷ entry 3 50 ∷ []
unfolding run add remove sort insert find without
in_order = refl

run-Sorted_example :
    Sorted (run operations empty).entries
    × ((run operations empty).entries ≡ sort (run operations empty).listener_map)
    × Once (run operations empty).listener_map
run-Sorted_example = run-Sorted operations
