-- ===== src/Licensing/Usage/Totals.antt =====
-- Each counter holds what was added to it since it was last reset.
use optorch.Base.{
  ◌≡◌, refl, ap, ◌∙◌, Bool, false, ◌&&◌, String, List, [], ◌∷◌, Option, ℕ, ◌+◌, arith, inl, inr,
  Bool-cases, if◌then◌else◌, ◌==◌, eq_iff,
}
use optorch.Base.Dict
use optorch.Base.Dict.{Dict}
use optorch.Licensing.Usage.{
  Counters, Period, get_window_key, count_of, set_count, increment, get_current, reset,
}

-- the calls of the tracker, each with its date
pub data Call : Type 0 where
  incremented : Period → String → String → ℕ → Option String → Call
  read : Period → String → String → Option String → Call
  was_reset : Period → String → String → Option String → Call

unfoldable pub run : List Call → Counters → Counters
run [] counters = counters
run (incremented now o m amount window ∷ calls) counters =
    run calls (increment now o m amount window counters).1
run (read now o m window ∷ calls) counters = run calls (get_current now o m window counters).1
run (was_reset now o m window ∷ calls) counters = run calls (reset now o m window counters)

abbrev pub is_same : String → String → String → String → String → String → Bool
is_same o m k o' m' k' = o == o' && m == m' && k == k'

-- the sum of the increments of one counter since its last reset
unfoldable pub total : String → String → String → List Call → ℕ → ℕ
total o m k [] before = before
total o m k (incremented now o' m' amount window ∷ calls) before =
    total o m k calls
      (if is_same o' m' (get_window_key now window) o m k then before + amount else before)
total o m k (read now o' m' window ∷ calls) before = total o m k calls before
total o m k (was_reset now o' m' window ∷ calls) before =
    total o m k calls (if is_same o' m' (get_window_key now window) o m k then 0 else before)

pub count_of-set_count :
    (o m k o' m' k' : String) (n : ℕ) (counters : Counters)
    → count_of o' m' k' (set_count o m k n counters)
      ≡ (if is_same o m k o' m' k' then n else count_of o' m' k' counters)
unfolding count_of set_count
count_of-set_count o m k o' m' k' n counters =
    let metrics = Dict.get_or o [] counters in
    let windows = Dict.get_or m [] metrics in
    let all = Dict.insert m (Dict.insert k n windows) metrics in
    ground (
      arith,
      eq_iff o o',
      eq_iff m m',
      eq_iff k k',
      Dict.get_or-insert o o' all [] counters,
      Dict.get_or-insert m m' (Dict.insert k n windows) [] metrics,
      Dict.get_or-insert k k' n 0 windows,
    )

count_of-absent :
    (o m k : String) (counters : Counters)
    → (Dict.has o counters && Dict.has m (Dict.get_or o [] counters)) ≡ false
    → count_of o m k counters ≡ 0
unfolding count_of Dict.get_or Dict.get
count_of-absent o m k counters h = elim (Bool-cases (Dict.has o counters)) [
  | inl there ↦
      ap (Dict.get_or k 0)
        (Dict.get_or-absent m [] (Dict.get_or o [] counters) (ground (arith, h, there)))
  | inr missing ↦
      ap (λ (metrics : Dict (Dict ℕ)). Dict.get_or k 0 (Dict.get_or m [] metrics))
        (Dict.get_or-absent o [] counters missing)
]

reset_lem :
    (now : Period) (o' m' : String) (window : Option String) (o m k : String) (counters : Counters)
    → count_of o m k (reset now o' m' window counters)
      ≡ (if is_same o' m' (get_window_key now window) o m k then 0 else count_of o m k counters)
unfolding reset
reset_lem now o' m' window o m k counters =
    let key = get_window_key now window in
    ground (
      arith,
      eq_iff o' o,
      eq_iff m' m,
      eq_iff key k,
      count_of-set_count o' m' key o m k 0 counters,
      count_of-absent o' m' key counters,
    )

count_of-run :
    (o m k : String) (calls : List Call) (counters : Counters)
    → count_of o m k (run calls counters) ≡ total o m k calls (count_of o m k counters)
unfolding run total increment get_current
count_of-run o m k [] counters = refl
count_of-run o m k (incremented now o' m' amount window ∷ calls) counters =
    let key = get_window_key now window in
    count_of-run o m k calls (increment now o' m' amount window counters).1
    ∙ ap (total o m k calls) (
        ground (
          arith,
          eq_iff o' o,
          eq_iff m' m,
          eq_iff key k,
          count_of-set_count o' m' key o m k (count_of o' m' key counters + amount) counters,
        ))
count_of-run o m k (read now o' m' window ∷ calls) counters =
    let key = get_window_key now window in
    count_of-run o m k calls (get_current now o' m' window counters).1
    ∙ ap (total o m k calls) (
        ground (
          arith,
          eq_iff o' o,
          eq_iff m' m,
          eq_iff key k,
          count_of-set_count o' m' key o m k (count_of o' m' key counters) counters,
        ))
count_of-run o m k (was_reset now o' m' window ∷ calls) counters =
    count_of-run o m k calls (reset now o' m' window counters)
    ∙ ap (total o m k calls) (reset_lem now o' m' window o m k counters)

-- After any calls of a new tracker `get_current` returns the sum of the increments of the same
-- organisation, metric and window key since the last reset of it: calls for other organisations,
-- metrics, windows or periods do not count.
pub get_current-run :
    (now : Period) (o m : String) (window : Option String) (calls : List Call)
    → (get_current now o m window (run calls [])).0 ≡ total o m (get_window_key now window) calls 0
unfolding get_current count_of Dict.get_or Dict.get
get_current-run now o m window calls = count_of-run o m (get_window_key now window) calls []
