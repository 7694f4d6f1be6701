-- ===== src/Provisioning/FilterParser/Parsed.antt =====
-- Every filter is parsed, to a clause whose parameters are numbered.

use Prim.Native.String.{count}
use optorch.Base.{
  ◌≡◌, refl, sym, ap, ◌∙◌, ℕ, zero, suc, ◌+◌, ◌≤◌, ◌<◌, false, not, ◌&&◌, String, List, [], ◌∷◌,
  ◌++◌, map, Option, none, some, if_both, ◌==◌, arith,
}
use optorch.Base.Dict
use optorch.Base.Texts.{◌<>◌}
use optorch.Provisioning.FilterParser.{
  Operator, operators, column_of, Parsing, started, joined_right, joined, negated, add_param,
  active_value, clean_value, compare_value, compare_none, presence, parse_operators,
  parse_comparison, parse_not, parse_or, parse_and, parse_expression, parse,
}
use optorch.Provisioning.FilterParser.Clauses.{
  Clause, conjunction, disjunction, negation, comparison, present, always, render, numbers, upto,
  upto-then, IsNumbered, IsParsed, IsNumbered-insert,
}
use optorch.Provisioning.Words.{
  strip, strip_prefix, split_once, remove, is_empty, count-strip_prefix, count-split_once,
  count-strip,
}

module _ (name : ℕ → String) where
  -- A result that is there, and is that of a clause.
  pub record IsTotal (p : Parsing) (o : Option (String × Parsing)) : Type 0 where
    pub result : String × Parsing
    pub here : o ≡ some result
    pub parsed : IsParsed name p result

  -- two parts with an operator in between
  joined-IsTotal :
      (op : String) (make : Clause → Clause → Clause) (p : Parsing) (o : Option (String × Parsing))
      (parse_right : Parsing → Option (String × Parsing))
      → ((a b : Clause)
          → render name (make a b) ≡ "(" <> render name a <> op <> render name b <> ")")
      → ((a b : Clause) → numbers (make a b) ≡ numbers a ++ numbers b)
      → IsTotal p o
      → ((q : Parsing) → IsTotal q (parse_right q))
      → IsTotal p (joined op o parse_right)
  unfolding joined joined_right
  joined-IsTotal op make p o parse_right shown counted left right =
      let l = left.parsed in
      let rest = right left.result.1 in
      let r = rest.parsed in
      record {
        result = ("(" <> left.result.0 <> op <> rest.result.0 <> ")", rest.result.1);
        here = rw (left.here, rest.here) refl;
        parsed = record {
          clause = make l.clause r.clause;
          text = rw (l.text, r.text) (sym (shown l.clause r.clause));
          n = l.n + r.n;
          counter = omega (arith, l.counter, r.counter);
          numbered =
              counted l.clause r.clause
              ∙ ap (λ x. x ++ numbers r.clause) l.numbered
              ∙ ap (λ x. upto p.counter l.n ++ x) r.numbered
              ∙ upto-then p.counter left.result.1.counter l.n r.n l.counter;
          keys = λ e. r.keys (l.keys e);
        };
      }

  negated-IsTotal :
      (p : Parsing) (o : Option (String × Parsing)) → IsTotal p o → IsTotal p (negated o)
  unfolding negated render numbers
  negated-IsTotal p o inner =
      let i = inner.parsed in
      record {
        result = ("NOT (" <> inner.result.0 <> ")", inner.result.1);
        here = rw inner.here refl;
        parsed = record {
          clause = negation i.clause;
          text = rw i.text refl;
          n = i.n;
          counter = i.counter;
          numbered = i.numbered;
          keys = i.keys;
        };
      }

  -- a clause without a value
  plain-IsParsed :
      (p : Parsing) (clause : Clause) (text : String)
      → text ≡ render name clause
      → numbers clause ≡ []
      → IsParsed name p (text, p)
  unfolding upto
  plain-IsParsed p clause text shown none_there = record {
    clause = clause;
    text = shown;
    n = 0;
    counter = omega arith;
    numbered = none_there;
    keys = λ e. e;
  }

  module _ (lower : String → String) (inj : (i j : ℕ) → name i ≡ name j → i ≡ j) where
    comparison-IsParsed :
        (attr sql_op value : String) (p : Parsing)
        → IsParsed name p (
          column_of attr <> " " <> sql_op <> " :" <> name p.counter,
          add_param lower name value p,
        )
    unfolding upto render numbers add_param
    comparison-IsParsed attr sql_op value p = record {
      clause = comparison attr sql_op p.counter;
      text = refl;
      n = 1;
      counter = refl;
      numbered = refl;
      keys = IsNumbered-insert name value p inj;
    }

    compare_none-IsParsed :
        (attr : String) (p : Parsing) → IsParsed name p (compare_none lower name attr p)
    unfolding compare_none render numbers
    compare_none-IsParsed attr p = plain-IsParsed p (present attr) _ refl refl

    compare_value-IsParsed :
        (attr : String) (op : Operator) (value : String) (p : Parsing)
        → IsParsed name p (compare_value lower name attr op value p)
    unfolding compare_value render numbers
    compare_value-IsParsed attr op value p =
        if_both (IsParsed name p) (attr == "active" && not (is_empty value)) _ _
          (λ _. comparison-IsParsed attr "=" (active_value lower name value) p)
          (λ _.
            if_both (IsParsed name p) (op.op_name == "pr") _ _
              (λ _. plain-IsParsed p (present attr) _ refl refl)
              (λ _.
                if_both (IsParsed name p) (is_empty value) _ _
                  (λ _. plain-IsParsed p always _ refl refl)
                  (λ _. comparison-IsParsed attr op.sql_op (clean_value op.op_name value) p)))

    presence-IsParsed : (expr : String) (p : Parsing) → IsParsed name p (presence lower name expr p)
    unfolding presence render numbers
    presence-IsParsed expr p = go (split_once " pr" expr)
      where
        go :
            (o : Option (String × String))
            → IsParsed name p (elim o [
              | none ↦ ("1=1", p)
              | some parts ↦ compare_none lower name (strip (remove " pr" expr)) p
            ])
        go none = plain-IsParsed p always "1=1" refl refl
        go (some parts) = compare_none-IsParsed (strip (remove " pr" expr)) p

    parse_operators-IsParsed :
        (ops : List Operator) (expr : String) (p : Parsing)
        → IsParsed name p (parse_operators lower name ops expr p)
    unfolding parse_operators
    parse_operators-IsParsed [] expr p = presence-IsParsed expr p
    parse_operators-IsParsed (op ∷ ops) expr p =
        go (split_once (" " <> op.op_name <> " ") expr) (parse_operators-IsParsed ops expr p)
      where
        go :
            (o : Option (String × String))
            → IsParsed name p (parse_operators lower name ops expr p)
            → IsParsed name p (elim o [
              | none ↦ parse_operators lower name ops expr p
              | some (attr, value) ↦ compare_value lower name (strip attr) op (strip value) p
            ])
        go none later = later
        go (some (attr, value)) later = compare_value-IsParsed (strip attr) op (strip value) p

    abbrev IsParser : ℕ → (String → Parsing → Option (String × Parsing)) → Type 0
    IsParser depth parse_part =
        (expr : String) (p : Parsing) → count expr < depth → IsTotal p (parse_part expr p)

    abbrev Shorter : ℕ → String → Type 0
    Shorter depth part = count part + 1 ≤ depth

    strip-Shorter : (depth : ℕ) (part : String) → Shorter depth part → count (strip part) < depth
    strip-Shorter depth part short = omega (arith, short, count-strip part)

    parse_not-IsTotal :
        (depth : ℕ) (parse_part : String → Parsing → Option (String × Parsing)) (o : Option String)
        (expr : String) (p : Parsing)
        → IsParser depth parse_part
        → ((inner : String) → o ≡ some inner → Shorter depth inner)
        → IsTotal p (parse_not lower name parse_part o expr p)
    unfolding parse_not parse_comparison
    parse_not-IsTotal depth parse_part none expr p parses short = record {
      result = parse_operators lower name operators expr p;
      here = refl;
      parsed = parse_operators-IsParsed operators expr p;
    }
    parse_not-IsTotal depth parse_part (some inner) expr p parses short =
        negated-IsTotal p (parse_part (strip inner) p)
          (parses (strip inner) p (strip-Shorter depth inner (short inner refl)))

    parse_or-IsTotal :
        (depth : ℕ) (parse_part : String → Parsing → Option (String × Parsing))
        (o : Option (String × String)) (expr : String) (p : Parsing)
        → IsParser depth parse_part
        → ((left right : String)
            → o ≡ some (left, right)
            → Shorter depth left × Shorter depth right)
        → count expr < depth + 1
        → IsTotal p (parse_or lower name parse_part o expr p)
    unfolding parse_or render numbers
    parse_or-IsTotal depth parse_part none expr p parses short enough =
        parse_not-IsTotal depth parse_part (strip_prefix "not " expr) expr p parses
          (λ inner e. omega (arith, count-strip_prefix "not " expr inner e, enough))
    parse_or-IsTotal depth parse_part (some (left, right)) expr p parses short enough =
        let fits = short left right refl in
        joined-IsTotal " OR " disjunction p (parse_part (strip left) p) (parse_part (strip right))
          (λ a b. refl) (λ a b. refl) (parses (strip left) p (strip-Shorter depth left fits.0))
          (λ q. parses (strip right) q (strip-Shorter depth right fits.1))

    parse_and-IsTotal :
        (depth : ℕ) (parse_part : String → Parsing → Option (String × Parsing))
        (o : Option (String × String)) (expr : String) (p : Parsing)
        → IsParser depth parse_part
        → ((left right : String)
            → o ≡ some (left, right)
            → Shorter depth left × Shorter depth right)
        → count expr < depth + 1
        → IsTotal p (parse_and lower name parse_part o expr p)
    unfolding parse_and render numbers
    parse_and-IsTotal depth parse_part none expr p parses short enough =
        parse_or-IsTotal depth parse_part (split_once " or " expr) expr p parses
          (λ left right e.
            let fits = count-split_once " or " expr left right e in
            (omega (arith, fits.0, enough), omega (arith, fits.1, enough)))
          enough
    parse_and-IsTotal depth parse_part (some (left, right)) expr p parses short enough =
        let fits = short left right refl in
        joined-IsTotal " AND " conjunction p (parse_part (strip left) p) (parse_part (strip right))
          (λ a b. refl) (λ a b. refl) (parses (strip left) p (strip-Shorter depth left fits.0))
          (λ q. parses (strip right) q (strip-Shorter depth right fits.1))

    -- the depth is enough where it exceeds the length of the expression
    parse_expression-IsTotal : (depth : ℕ) → IsParser depth (parse_expression lower name depth)
    unfolding parse_expression
    parse_expression-IsTotal zero expr p enough = absurd (omega (arith, enough))
    parse_expression-IsTotal (suc depth) expr p enough =
        parse_and-IsTotal depth (parse_expression lower name depth) (split_once " and " expr) expr p
          (parse_expression-IsTotal depth)
          (λ left right e.
            let fits = count-split_once " and " expr left right e in
            (omega (arith, fits.0, enough), omega (arith, fits.1, enough)))
          (omega (arith, enough))

  started-numbers :
      (r : String × Parsing) (parsed : IsParsed name started r)
      → numbers parsed.clause ≡ upto 0 r.1.counter
  started-numbers r parsed = parsed.numbered ∙ ap (upto 0) (omega (arith, parsed.counter))

-- Every filter that is not empty is parsed, and the depth of recursion suffices. The text is that of a clause,
-- and the parameters are, in this order, those with the numbers that stand in the clause from left to
-- right: 0, 1 and so on. (Different numbers have different names.)
pub parse-total :
    (lower : String → String) (name : ℕ → String) (filter_str : String)
    → ((i j : ℕ) → name i ≡ name j → i ≡ j)
    → is_empty filter_str ≡ false
    → (clause : Clause) × (p : Parsing) × (parse lower name filter_str
        ≡ some (render name clause, p))
      × (numbers clause ≡ upto 0 p.counter)
      × (Dict.keys p.params ≡ map name (numbers clause))
unfolding parse IsNumbered upto Dict.keys
parse-total lower name filter_str inj some_filter =
    let expr = lower (strip filter_str) in
    let total =
      parse_expression-IsTotal name lower inj (suc (count expr)) expr started (omega arith) in
    let parsed = total.parsed in
    let all = started-numbers name total.result parsed in
    (
      parsed.clause,
      total.result.1,
      rw (some_filter, total.here) (ap (λ text. some (text, total.result.1)) parsed.text),
      all,
      parsed.keys refl ∙ ap (map name) (sym all),
    )
