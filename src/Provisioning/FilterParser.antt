-- ===== src/Provisioning/FilterParser.antt =====
-- `SCIMFilterParser` of identity/provisioning/filter_parser.py: from a SCIM filter to the text of a WHERE clause and
-- its parameters. `str.lower` and the name of the parameter with a number are parameters.
pub mod Clauses
pub mod Parsed
mod Tests
use Prim.Native.Char.{Char}
use Prim.Native.String.{count}
use optorch.Base.{
  ℕ, zero, suc, ◌+◌, Bool, true, false, ◌&&◌, ◌||◌, not, String, List, [], ◌∷◌, Option, none, some,
  if◌then◌else◌, ◌==◌,
}
use optorch.Base.Dict
use optorch.Base.Dict.{Dict}
use optorch.Base.Texts.{◌<>◌}
use optorch.Provisioning.Words.{
  same_char, strip, strip_of, split_once, strip_prefix, remove, is_empty,
}

pub record Operator : Type 0 where
  pub op_name : String
  pub sql_op : String

abbrev pub operator : String → String → Operator
operator op_name sql_op = record { op_name = op_name; sql_op = sql_op }

-- `OPERATORS`, in the order of the dict
abbrev pub operators : List Operator
operators =
    operator "eq" "="
    ∷ operator "ne" "!="
    ∷ operator "co" "LIKE"
    ∷ operator "sw" "LIKE"
    ∷ operator "ew" "LIKE"
    ∷ operator "gt" ">"
    ∷ operator "ge" ">="
    ∷ operator "lt" "<"
    ∷ operator "le" "<="
    ∷ operator "pr" "IS NOT NULL"
    ∷ []

abbrev pub attribute_map : Dict String
attribute_map =
    ("username", "id")
    ∷ ("name.givenname", "given_name")
    ∷ ("name.familyname", "family_name")
    ∷ ("active", "status")
    ∷ ("emails.value", "id")
    ∷ ("id", "id")
    ∷ []

unfoldable pub column_of : String → String
column_of attr = Dict.get_or attr attr attribute_map

abbrev double_quote : Char
double_quote = "\""

abbrev single_quote : Char
single_quote = "'"

unfoldable pub strip_double : String → String
strip_double s = strip_of (same_char double_quote) s

unfoldable pub strip_single : String → String
strip_single s = strip_of (same_char single_quote) s

-- the value of a comparison, with the wildcards of LIKE
unfoldable pub clean_value : String → String → String
clean_value op_name value =
    let clean = strip_single (strip_double value) in
    if op_name == "co"
    then "%" <> clean <> "%"
    else if op_name == "sw"
    then clean <> "%"
    else if op_name == "ew"
    then "%" <> clean
    else clean

-- `self.param_counter` and `self.params`
pub record Parsing : Type 0 where
  pub counter : ℕ
  pub params : Dict String

abbrev pub started : Parsing
started = record { counter = 0; params = [] }

-- the parts joined by an operator
unfoldable pub joined_right :
    String → String → Option (String × Parsing) → Option (String × Parsing)
joined_right op left none = none
joined_right op left (some (right, p)) = some ("(" <> left <> op <> right <> ")", p)

unfoldable pub joined :
    String
    → Option (String × Parsing)
    → (Parsing → Option (String × Parsing))
    → Option (String × Parsing)
joined op none parse_right = none
joined op (some (left, p)) parse_right = joined_right op left (parse_right p)

unfoldable pub negated : Option (String × Parsing) → Option (String × Parsing)
negated none = none
negated (some (inner, p)) = some ("NOT (" <> inner <> ")", p)

module _ (lower : String → String) (param_name : ℕ → String) where
  -- a value becomes a parameter
  unfoldable pub add_param : String → Parsing → Parsing
  add_param value p = record {
    counter = p.counter + 1;
    params = Dict.insert (param_name p.counter) value p.params;
  }

  unfoldable pub active_value : String → String
  active_value value =
      let flag = lower (strip_double value) in
      if flag == "true" || flag == "1" then "active" else "inactive"

  unfoldable pub compare_value : String → Operator → String → Parsing → String × Parsing
  compare_value attr op value p =
      if attr == "active" && not (is_empty value)
      then (
        column_of attr <> " " <> "=" <> " :" <> param_name p.counter,
        add_param (active_value value) p,
      )
      else if op.op_name == "pr"
      then (column_of attr <> " IS NOT NULL", p)
      else if is_empty value
      then ("1=1", p)
      else (
        column_of attr <> " " <> op.sql_op <> " :" <> param_name p.counter,
        add_param (clean_value op.op_name value) p,
      )

  -- `_build_comparison` without a value is only called for "pr"
  unfoldable pub compare_none : String → Parsing → String × Parsing
  compare_none attr p = (column_of attr <> " IS NOT NULL", p)

  unfoldable pub presence : String → Parsing → String × Parsing
  presence expr p = elim (split_once " pr" expr) [
    | none ↦ ("1=1", p)
    | some parts ↦ compare_none (strip (remove " pr" expr)) p
  ]

  -- the loop over the operators: the first that stands in the expression between spaces
  unfoldable pub parse_operators : List Operator → String → Parsing → String × Parsing
  parse_operators [] expr p = presence expr p
  parse_operators (op ∷ ops) expr p =
      let others = parse_operators ops expr p in
      elim (split_once (" " <> op.op_name <> " ") expr) [
        | none ↦ others
        | some (attr, value) ↦ compare_value (strip attr) op (strip value) p
      ]

  unfoldable pub parse_comparison : String → Parsing → String × Parsing
  parse_comparison expr p = parse_operators operators expr p

  -- `_parse_expression`, by what parses the parts
  unfoldable pub parse_not :
      (String → Parsing → Option (String × Parsing))
      → Option String
      → String
      → Parsing
      → Option (String × Parsing)
  parse_not parse_part none expr p = some (parse_comparison expr p)
  parse_not parse_part (some inner) expr p = negated (parse_part (strip inner) p)

  unfoldable pub parse_or :
      (String → Parsing → Option (String × Parsing))
      → Option (String × String)
      → String
      → Parsing
      → Option (String × Parsing)
  parse_or parse_part none expr p = parse_not parse_part (strip_prefix "not " expr) expr p
  parse_or parse_part (some (left, right)) expr p =
      joined " OR " (parse_part (strip left) p) (parse_part (strip right))

  unfoldable pub parse_and :
      (String → Parsing → Option (String × Parsing))
      → Option (String × String)
      → String
      → Parsing
      → Option (String × Parsing)
  parse_and parse_part none expr p = parse_or parse_part (split_once " or " expr) expr p
  parse_and parse_part (some (left, right)) expr p =
      joined " AND " (parse_part (strip left) p) (parse_part (strip right))

  -- with the depth of recursion that is left; `none` where it is used up
  unfoldable pub parse_expression : ℕ → String → Parsing → Option (String × Parsing)
  parse_expression zero expr p = none
  parse_expression (suc depth) expr p =
      parse_and (parse_expression depth) (split_once " and " expr) expr p

  -- `parse`, with a depth that is enough for the filter
  unfoldable pub parse : String → Option (String × Parsing)
  parse filter_str =
      if is_empty filter_str
      then some ("", started)
      else parse_expression (suc (count (lower (strip filter_str)))) (lower (strip filter_str))
          started
