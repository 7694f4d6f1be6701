-- ===== src/Events/Listeners.antt =====
-- `ListenerManager` of events/listener_manager.py. A listener stands for its `id`, and a priority is a natural number.
-- Whether the filters of an entry let an event through is a test on the entry.
mod Tests
pub mod Sorting
pub mod Order
use optorch.Base.{
  ◌≡◌, refl, ℕ, Bool, true, false, List, [], ◌∷◌, ◌++◌, Option, none, some, if◌then◌else◌, nat_eq,
  leb, keep, String, any, elem,
}

pub record ListenerEntry : Type 0 where
  pub listener : ℕ
  pub priority : ℕ
  pub tags : Option (List String)
  pub blocking : Bool

-- the entries in the order of calls, and the dict by listener with its entries in the order of insertion
pub record ListenerManager : Type 0 where
  pub entries : List ListenerEntry
  pub listener_map : List ListenerEntry

abbrev pub empty : ListenerManager
empty = record { entries = []; listener_map = [] }

unfoldable pub find : ℕ → List ListenerEntry → Option ListenerEntry
find listener [] = none
find listener (entry ∷ entries) =
    let later = find listener entries in
    if nat_eq entry.listener listener then some entry else later

-- Python's sort, which is stable: an entry stands before the later ones of its priority
unfoldable pub insert : ListenerEntry → List ListenerEntry → List ListenerEntry
insert entry [] = entry ∷ []
insert entry (first ∷ entries) =
    let later = insert entry entries in
    if leb entry.priority first.priority then entry ∷ first ∷ entries else first ∷ later

unfoldable pub sort : List ListenerEntry → List ListenerEntry
sort [] = []
sort (entry ∷ entries) = insert entry (sort entries)

-- `pop` of a dict and `remove` of a list: the first entry of the listener goes
unfoldable pub without : ℕ → List ListenerEntry → List ListenerEntry
without listener [] = []
without listener (entry ∷ entries) =
    let later = without listener entries in
    if nat_eq entry.listener listener then entries else entry ∷ later

-- a listener that is registered keeps its entry
abbrev pub added :
    Option ListenerEntry → ListenerEntry → ListenerManager → ListenerEntry × ListenerManager
added (some old) entry manager = (old, manager)
added none entry manager = (
  entry,
  record {
    entries = sort (manager.entries ++ (entry ∷ []));
    listener_map = manager.listener_map ++ (entry ∷ []);
  },
)

unfoldable pub add : ListenerEntry → ListenerManager → ListenerEntry × ListenerManager
add entry manager = added (find entry.listener manager.listener_map) entry manager

abbrev pub removed : Option ListenerEntry → ℕ → ListenerManager → ListenerManager
removed none listener manager = manager
removed (some entry) listener manager = record {
  entries = without listener manager.entries;
  listener_map = without listener manager.listener_map;
}

unfoldable pub remove : ℕ → ListenerManager → ListenerManager
remove listener manager = removed (find listener manager.listener_map) listener manager

unfoldable pub for_event : (ListenerEntry → Bool) → ListenerManager → List ListenerEntry
for_event should_receive manager = keep should_receive manager.entries

-- `has_any_tag`: an entry without tags matches all
unfoldable pub has_any_tag : List String → ListenerEntry → Bool
has_any_tag tags entry = elim entry.tags [ none ↦ true | some own ↦ any (λ tag. elem tag tags) own ]

unfoldable pub by_tags : List String → ListenerManager → List ListenerEntry
by_tags tags manager = keep (has_any_tag tags) manager.entries

unfoldable pub get : ℕ → ListenerManager → Option ListenerEntry
get listener manager = find listener manager.listener_map

pub data Operation : Type 0 where
  adding : ListenerEntry → Operation
  removing : ℕ → Operation

unfoldable pub run : List Operation → ListenerManager → ListenerManager
run [] manager = manager
run (adding entry ∷ operations) manager = run operations (add entry manager).1
run (removing listener ∷ operations) manager = run operations (remove listener manager)
