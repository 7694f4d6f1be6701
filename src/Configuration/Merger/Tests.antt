-- ===== src/Configuration/Merger/Tests.antt =====
-- Concrete runs of config/merger.py.
use optorch.Base.{◌≡◌, refl, true, false, some, elem}
use optorch.Configuration.Merger.{
  Value, null, leaf, section, Fields, nil, field, get, set, pop, split, get_path, deep_get,
  set_path, deep_set, replaces, deep_merge,
}
use optorch.Configuration.Merger.Entries.{Distinct, or_before, get-deep_merge}
use optorch.Configuration.Merger.Paths.{apart, deep_get-deep_set}
use optorch.Configuration.Merger.Overrides.{deep_get-deep_merge}

abbrev one : Value
one = leaf true "1"

abbrev two : Value
two = leaf true "2"

abbrev base_config : Fields
base_config = field "a" (section (field "x" one (field "y" one nil))) (field "b" one nil)

abbrev marked : Fields
marked =
    field "a" (section (field "__replace__" (leaf true "True") (field "y" two nil)))
      (field "b" null nil)

marked_merge : deep_merge base_config marked ≡ field "a" (section (field "y" two nil)) nil
unfolding deep_merge replaces get set pop
marked_merge = refl

-- a marker below a key that the base does not have stays in the merge
marker_left : deep_merge nil (field "c" (section marked) nil) ≡ field "c" (section marked) nil
unfolding deep_merge replaces get set pop
marker_left = refl

marked-Distinct : Distinct marked
unfolding Distinct get
marked-Distinct = (refl, (refl, tt, (refl, tt, tt)), (refl, tt, tt))

get-deep_merge_example :
    get "a" (deep_merge base_config marked) ≡ or_before (get "a" base_config) (get "a" marked)
get-deep_merge_example = get-deep_merge marked "a" base_config marked-Distinct

set_deep :
    deep_set base_config "a.x" two
    ≡ some (section (field "a" (section (field "x" two (field "y" one nil))) (field "b" one nil)))
unfolding deep_set set_path split get set
set_deep = refl

deep_get-deep_set_example :
    (deep_get
        (field "a" (section (field "x" two (field "y" one nil))) (field "b" one nil))
        "a.x"
        null
      ≡ two)
    × (apart (split "a.x") (split "a.y") ≡ true
        → deep_get
            (field "a" (section (field "x" two (field "y" one nil))) (field "b" one nil))
            "a.y"
            null
          ≡ deep_get base_config "a.y" null)
deep_get-deep_set_example =
    deep_get-deep_set base_config
      (field "a" (section (field "x" two (field "y" one nil))) (field "b" one nil)) "a.x" "a.y" two
      null set_deep

unmarked_path : elem "__replace__" (split "a.y") ≡ false
unfolding elem split
unmarked_path = refl

marked_setting : deep_get marked "a.y" null ≡ leaf true "2"
unfolding deep_get get_path split get
marked_setting = refl

deep_get-deep_merge_example : deep_get (deep_merge base_config marked) "a.y" null ≡ leaf true "2"
deep_get-deep_merge_example =
    deep_get-deep_merge base_config marked "a.y" "2" true marked-Distinct unmarked_path
      marked_setting null
