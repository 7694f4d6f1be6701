-- ===== src/Licensing/Usage/Tests.antt =====
-- identity/licensing/usage/memory.py on concrete calls.
use optorch.Base.{◌≡◌, List, [], ◌∷◌, some}
use optorch.Licensing.Usage.{Period, get_current, get_window_key, named_window_key}
use optorch.Licensing.Usage.Totals.{Call, incremented, was_reset, run, total, get_current-run}

abbrev may : Period
may = record { year_month = "2024-05"; year = "2024"; year_month_day = "2024-05-31" }

abbrev june : Period
june = record { year_month = "2024-06"; year = "2024"; year_month_day = "2024-06-01" }

abbrev calls : List Call
calls =
    incremented may "acme" "api" 5 (some "monthly")
    ∷ incremented june "acme" "api" 2 (some "monthly")
    ∷ incremented june "acme" "tool" 9 (some "monthly")
    ∷ was_reset june "acme" "api" (some "monthly")
    ∷ incremented june "acme" "api" 3 (some "monthly")
    ∷ []

get_current-run_example : (get_current june "acme" "api" (some "monthly") (run calls [])).0 ≡ 3
unfolding total get_window_key named_window_key
get_current-run_example = get_current-run june "acme" "api" (some "monthly") calls
