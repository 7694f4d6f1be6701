-- ===== src/Provisioning/FilterParser/Clauses.antt =====
-- A description of the WHERE clauses that the parser builds, and of its parameters.
use mathlib.Core.List.{map-append}
use optorch.Base.{
  ◌≡◌, ◌≢◌, refl, sym, ap, ◌∙◌, ℕ, zero, suc, ◌+◌, ◌≤◌, String, List, [], ◌∷◌, ◌++◌, map, ◌==◌,
  eq_iff, if_both, subst, All, arith,
}
use optorch.Base.Dict
use optorch.Base.Dict.{Dict}
use optorch.Base.Texts.{◌<>◌}
use optorch.Provisioning.FilterParser.{column_of, Parsing}

-- A clause: the attribute of a comparison stands for its column, and a value for its number.
pub data Clause : Type 0 where
  conjunction : Clause → Clause → Clause
  disjunction : Clause → Clause → Clause
  negation : Clause → Clause
  comparison : String → String → ℕ → Clause
  present : String → Clause
  always : Clause

unfoldable pub render : (ℕ → String) → Clause → String
render name (conjunction a b) = "(" <> render name a <> " AND " <> render name b <> ")"
render name (disjunction a b) = "(" <> render name a <> " OR " <> render name b <> ")"
render name (negation a) = "NOT (" <> render name a <> ")"
render name (comparison attr sql_op n) = column_of attr <> " " <> sql_op <> " :" <> name n
render name (present attr) = column_of attr <> " IS NOT NULL"
render name always = "1=1"

-- the numbers of the values, from left to right
unfoldable pub numbers : Clause → List ℕ
numbers (conjunction a b) = numbers a ++ numbers b
numbers (disjunction a b) = numbers a ++ numbers b
numbers (negation a) = numbers a
numbers (comparison attr sql_op n) = n ∷ []
numbers (present attr) = []
numbers always = []

-- the numbers from `start`, as many as `n`
unfoldable pub upto : ℕ → ℕ → List ℕ
upto start zero = []
upto start (suc n) = start ∷ upto (start + 1) n

shifted : (m n k l : ℕ) → m ≡ n → k ≡ l → upto m k ≡ upto n l
shifted m n k l e f = rw (e, f) refl

upto-append : (start m n : ℕ) → upto start (m + n) ≡ upto start m ++ upto (start + m) n
unfolding upto
upto-append start zero n = shifted start (start + 0) (0 + n) n (omega arith) (omega arith)
upto-append start (suc m) n =
    shifted start start (suc m + n) (suc (m + n)) refl (omega arith)
    ∙ ap (λ l. start ∷ l)
        (upto-append (start + 1) m n
          ∙ ap (λ l. upto (start + 1) m ++ l)
              (shifted (start + 1 + m) (start + suc m) n n (omega arith) refl))

pub upto-then :
    (start next m n : ℕ) → next ≡ start + m → upto start m ++ upto next n ≡ upto start (m + n)
upto-then start next m n e = rw e (sym (upto-append start m n))

upto-one : (c : ℕ) → upto (0 + c) 1 ≡ c ∷ []
unfolding upto
upto-one c = ap (λ i. i ∷ []) (the_same c)
  where
    the_same : (c : ℕ) → 0 + c ≡ c
    the_same c = omega arith

keys-insert :
    (k v : String) (d : Dict String)
    → All (λ j. j ≢ k) (Dict.keys d)
    → Dict.keys (Dict.insert k v d) ≡ Dict.keys d ++ k ∷ []
unfolding Dict.keys Dict.insert
keys-insert k v [] fresh = refl
keys-insert k v ((j, w) ∷ d) fresh =
    if_both (λ (e : Dict String). Dict.keys e ≡ j ∷ (Dict.keys d ++ k ∷ [])) (j == k) _ _
      (λ same. absurd (fresh.0 ((eq_iff j k).0 same)))
      (λ _. ap (λ l. j ∷ l) (keys-insert k v d fresh.1))

module _ (name : ℕ → String) where
  -- The parameters are those with the numbers below the counter, in order.
  unfoldable pub IsNumbered : Parsing → Type 0
  IsNumbered p = Dict.keys p.params ≡ map name (upto 0 p.counter)

  -- What parsing a part of a filter gives: the text of a clause with the numbers from the counter on.
  pub record IsParsed (p : Parsing) (result : String × Parsing) : Type 0 where
    pub clause : Clause
    pub text : result.0 ≡ render name clause
    pub n : ℕ
    pub counter : result.1.counter ≡ p.counter + n
    pub numbered : numbers clause ≡ upto p.counter n
    pub keys : IsNumbered p → IsNumbered result.1

  fresh_names :
      (start n c : ℕ)
      → ((i j : ℕ) → name i ≡ name j → i ≡ j)
      → start + n ≤ c
      → All (λ j. j ≢ name c) (map name (upto start n))
  unfolding upto
  fresh_names start zero c inj fits = tt
  fresh_names start (suc n) c inj fits = (
    λ e. omega (arith, inj start c e, fits),
    fresh_names (start + 1) n c inj (omega (arith, fits)),
  )

  -- a value that becomes the parameter with the number of the counter keeps the numbering
  pub IsNumbered-insert :
      (value : String) (p : Parsing)
      → ((i j : ℕ) → name i ≡ name j → i ≡ j)
      → IsNumbered p
      → IsNumbered
          (record { counter = p.counter + 1; params = Dict.insert (name p.counter) value p.params })
  unfolding IsNumbered
  IsNumbered-insert value p inj e =
      keys-insert (name p.counter) value p.params (
        subst (All (λ j. j ≢ name p.counter)) (sym e)
          (fresh_names 0 p.counter p.counter inj (omega arith)))
      ∙ ap (λ l. l ++ name p.counter ∷ []) e
      ∙ sym (
          ap (map name) (upto-append 0 p.counter 1)
          ∙ map-append name (upto 0 p.counter) (upto (0 + p.counter) 1)
          ∙ ap (λ l. map name (upto 0 p.counter) ++ map name l) (upto-one p.counter))
