-- ===== src/Licensing/Usage.antt =====
-- identity/licensing/usage/memory.py: counters by organisation, metric and window, without persistence.
pub mod Totals
mod Tests
use optorch.Base.{
  Bool, true, false, ◌&&◌, String, List, [], ◌∷◌, ◌++◌, Option, none, some, ℕ, ◌+◌, if◌then◌else◌,
  ◌==◌,
}
use optorch.Base.Dict
use optorch.Base.Dict.{Dict}
use optorch.Base.Texts.{split, ◌<>◌}

-- `_counters`: organisation, metric, window
abbrev pub Counters : Type 0
Counters = Dict (Dict (Dict ℕ))

-- the date of a call, as the f-strings write it: year and month, year, and year, month and day
pub record Period : Type 0 where
  pub year_month : String
  pub year : String
  pub year_month_day : String

unfoldable pub named_window_key : Period → String → String
named_window_key now window =
    if window == "monthly"
    then "monthly:" <> now.year_month
    else if window == "yearly"
    then "yearly:" <> now.year
    else if window == "daily"
    then "daily:" <> now.year_month_day
    else window

unfoldable pub get_window_key : Period → Option String → String
get_window_key now none = "lifetime"
get_window_key now (some window) = named_window_key now window

-- `_counters[organization_id][metric][window_key]`, where a missing entry reads as its default
unfoldable pub count_of : String → String → String → Counters → ℕ
count_of organization_id metric window_key counters =
    Dict.get_or window_key 0 (Dict.get_or metric [] (Dict.get_or organization_id [] counters))

-- assignment to it, which creates what is missing
unfoldable pub set_count : String → String → String → ℕ → Counters → Counters
set_count organization_id metric window_key count counters =
    let metrics = Dict.get_or organization_id [] counters in
    Dict.insert organization_id
      (Dict.insert metric (Dict.insert window_key count (Dict.get_or metric [] metrics)) metrics)
      counters

unfoldable pub increment : Period → String → String → ℕ → Option String → Counters → ℕ × Counters
increment now organization_id metric amount window counters =
    let window_key = get_window_key now window in
    let current = count_of organization_id metric window_key counters + amount in
    (current, set_count organization_id metric window_key current counters)

-- reading a `defaultdict` stores the default
unfoldable pub get_current : Period → String → String → Option String → Counters → ℕ × Counters
get_current now organization_id metric window counters =
    let window_key = get_window_key now window in
    let current = count_of organization_id metric window_key counters in
    (current, set_count organization_id metric window_key current counters)

unfoldable pub reset : Period → String → String → Option String → Counters → Counters
reset now organization_id metric window counters =
    if Dict.has organization_id counters
      && Dict.has metric (Dict.get_or organization_id [] counters)
    then set_count organization_id metric (get_window_key now window) 0 counters
    else counters

-- `window_key.split(":")[0]`
abbrev pub first_part : List String → String
first_part [] = ""
first_part (part ∷ parts) = part

unfoldable pub add_windows : String → Dict ℕ → Dict ℕ → Dict ℕ
add_windows metric [] result = result
add_windows metric ((window_key, count) ∷ windows) result =
    add_windows metric windows
      (Dict.insert (metric <> "_" <> first_part (split window_key)) count result)

unfoldable pub add_metrics : Dict (Dict ℕ) → Dict ℕ → Dict ℕ
add_metrics [] result = result
add_metrics ((metric, windows) ∷ metrics) result =
    add_metrics metrics (add_windows metric windows result)

unfoldable pub get_all_metrics : String → Counters → Dict ℕ
get_all_metrics organization_id counters =
    if Dict.has organization_id counters
    then add_metrics (Dict.get_or organization_id [] counters) []
    else []
