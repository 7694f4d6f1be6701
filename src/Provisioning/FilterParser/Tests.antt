-- ===== src/Provisioning/FilterParser/Tests.antt =====
-- The filter parser on concrete filters.
use Prim.Native.String.{count}
use text.Mathlib.TextLemmas.{length-append}
use optorch.Base.{◌≡◌, refl, ap, ℕ, zero, suc, ◌+◌, String, [], ◌∷◌, some, map, any, arith}
use optorch.Base.Dict
use optorch.Base.Texts.{◌<>◌}
use optorch.Provisioning.FilterParser.{
  Parsing, parse, parse_expression, parse_and, parse_or, parse_not, joined, joined_right, negated,
  parse_comparison, parse_operators, presence, compare_none, compare_value, add_param, active_value,
  clean_value, column_of, strip_double, strip_single,
}
use optorch.Provisioning.FilterParser.Clauses.{Clause, render, numbers, upto}
use optorch.Provisioning.FilterParser.Parsed.{parse-total}
use optorch.Provisioning.Words.{strip_prefix, split_once, is_space, lstrip, rstrip, remove_from}

-- names of parameters: "p", "xp", "xxp" and so on
abbrev name : ℕ → String
name zero = "p"
name (suc n) = "x" <> name n

count-name : (n : ℕ) → count (name n) ≡ n + 1
count-name zero = refl
count-name (suc n) = omega (arith, length-append "x" (name n), count-name n)

name-injective : (i j : ℕ) → name i ≡ name j → i ≡ j
name-injective i j e = omega (arith, count-name i, count-name j, ap count e)

abbrev filter : String
filter = "username eq \"ada\" and not active eq true"

parsed :
    parse (λ s. s) name filter
    ≡ some (
      "(id = :p AND NOT (status = :xp))",
      record { counter = 2; params = ("p", "ada") ∷ ("xp", "active") ∷ [] },
    )
unfolding parse parse_expression parse_and parse_or parse_not joined joined_right negated
    parse_comparison parse_operators presence compare_none compare_value add_param active_value
    clean_value column_of strip_double strip_single strip_prefix split_once is_space lstrip rstrip
    remove_from Dict.get_or Dict.get Dict.insert any
parsed = refl

parse-total_example :
    (clause : Clause) × (p : Parsing) × (parse (λ s. s) name filter ≡ some (render name clause, p))
    × (numbers clause ≡ upto 0 p.counter)
    × (Dict.keys p.params ≡ map name (numbers clause))
parse-total_example = parse-total (λ s. s) name filter name-injective refl
