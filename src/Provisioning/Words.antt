-- ===== src/Provisioning/Words.antt =====
-- What the filter parser uses of Python's texts: `split(sep, 1)`, `startswith`, `strip` and `replace`.

use Prim.Native.Char.{Char, code}
use Prim.Native.String as S
use Prim.Native.String.{String, count}
use text.Mathlib.TextLemmas.{length-nil, length-cons}
use mathlib.Core.Option.{some-injective}
use optorch.Base.{
  ℕ, zero, suc, ◌+◌, ◌-◌, ◌≤◌, ◌≡◌, refl, subst, Bool, true, false, ◌&&◌, ◌||◌, [], ◌∷◌, Option,
  none, some, nat_eq, leb, any, if◌then◌else◌, arith,
}

abbrev pub same_char : Char → Char → Bool
same_char c d = nat_eq (code c) (code d)

abbrev pub is_empty : String → Bool
is_empty S.[] = true
is_empty (S.◌∷◌ c s) = false

-- the rest of a text that starts with the prefix
unfoldable pub strip_prefix : String → String → Option String
strip_prefix S.[] s = some s
strip_prefix (S.◌∷◌ d prefix) S.[] = none
strip_prefix (S.◌∷◌ d prefix) (S.◌∷◌ c s) =
    let rest = strip_prefix prefix s in if same_char c d then rest else none

abbrev pub onto_left : Char → Option (String × String) → Option (String × String)
onto_left c none = none
onto_left c (some (left, right)) = some (S.◌∷◌ c left, right)

abbrev pub found_here : Option String → Option (String × String) → Option (String × String)
found_here (some rest) later = some (S.[], rest)
found_here none later = later

-- the parts of `s.split(sep, 1)` where `sep in s`
unfoldable pub split_once : String → String → Option (String × String)
split_once sep S.[] = none
split_once sep (S.◌∷◌ c s) =
    found_here (strip_prefix sep (S.◌∷◌ c s)) (onto_left c (split_once sep s))

-- the white space of `str.isspace`
unfoldable pub is_space : Char → Bool
is_space c =
    (leb 9 (code c) && leb (code c) 13)
    || (leb 28 (code c) && leb (code c) 32)
    || any (nat_eq (code c)) (133 ∷ 160 ∷ 5760 ∷ 8232 ∷ 8233 ∷ 8239 ∷ 8287 ∷ 12288 ∷ [])
    || (leb 8192 (code c) && leb (code c) 8202)

-- `s.lstrip` and `s.rstrip` of the characters of a kind
unfoldable pub lstrip : (Char → Bool) → String → String
lstrip kind S.[] = S.[]
lstrip kind (S.◌∷◌ c s) = let rest = lstrip kind s in if kind c then rest else S.◌∷◌ c s

unfoldable pub rstrip : (Char → Bool) → String → String
rstrip kind S.[] = S.[]
rstrip kind (S.◌∷◌ c s) =
    let rest = rstrip kind s in if kind c && is_empty rest then S.[] else S.◌∷◌ c rest

abbrev pub strip_of : (Char → Bool) → String → String
strip_of kind s = rstrip kind (lstrip kind s)

abbrev pub strip : String → String
strip s = strip_of is_space s

-- `s.replace(part, "")` for a part of the given length, some characters of which are still to be skipped
unfoldable pub remove_from : String → ℕ → String → String
remove_from part skip S.[] = S.[]
remove_from part (suc skip) (S.◌∷◌ c s) = remove_from part skip s
remove_from part zero (S.◌∷◌ c s) =
    let inside = remove_from part (count part - 1) s in
    let outside = remove_from part zero s in
    elim (strip_prefix part (S.◌∷◌ c s)) [ none ↦ S.◌∷◌ c outside | some rest ↦ inside ]

abbrev pub remove : String → String → String
remove part s = remove_from part 0 s

pub count-strip_prefix :
    (prefix s rest : String)
    → strip_prefix prefix s ≡ some rest
    → count rest + count prefix ≤ count s
unfolding strip_prefix
count-strip_prefix S.[] s rest h = ground (arith, h, length-nil)
count-strip_prefix (S.◌∷◌ d prefix) S.[] rest h = ground (arith, h)
count-strip_prefix (S.◌∷◌ d prefix) (S.◌∷◌ c s) rest h =
    ground (arith, h, length-cons d prefix, length-cons c s, count-strip_prefix prefix s rest)

abbrev Fits : String → String → String → String → Type 0
Fits sep text left right =
    (count left + count sep ≤ count text) × (count right + count sep ≤ count text)

-- both parts are shorter than the text, by the separator
pub count-split_once :
    (sep s left right : String)
    → split_once sep s ≡ some (left, right)
    → (count left + count sep ≤ count s) × (count right + count sep ≤ count s)
unfolding split_once
count-split_once sep S.[] left right h = ground (arith, h)
count-split_once sep (S.◌∷◌ c s) left right h =
    go (strip_prefix sep (S.◌∷◌ c s)) (split_once sep s) (count-strip_prefix sep (S.◌∷◌ c s))
      (count-split_once sep s) h
  where
    go :
        (o : Option String) (p : Option (String × String))
        → ((rest : String) → o ≡ some rest → count rest + count sep ≤ count (S.◌∷◌ c s))
        → ((l r : String) → p ≡ some (l, r) → Fits sep s l r)
        → found_here o (onto_left c p) ≡ some (left, right)
        → Fits sep (S.◌∷◌ c s) left right
    go (some rest) p here later e =
        subst (λ (q : String × String). Fits sep (S.◌∷◌ c s) q.0 q.1) (some-injective _ _ e)
          (omega (arith, here rest refl, length-nil), here rest refl)
    go none (some (l, r)) here later e =
        subst (λ (q : String × String). Fits sep (S.◌∷◌ c s) q.0 q.1) (some-injective _ _ e)
          (let h = later l r refl in
            (
              omega (arith, h.0, length-cons c l, length-cons c s),
              omega (arith, h.1, length-cons c s),
            ))
    go none none here later e = ground (arith, e)

pub count-lstrip : (kind : Char → Bool) (s : String) → count (lstrip kind s) ≤ count s
unfolding lstrip
count-lstrip kind S.[] = omega arith
count-lstrip kind (S.◌∷◌ c s) = ground (arith, length-cons c s, count-lstrip kind s)

pub count-rstrip : (kind : Char → Bool) (s : String) → count (rstrip kind s) ≤ count s
unfolding rstrip
count-rstrip kind S.[] = omega arith
count-rstrip kind (S.◌∷◌ c s) =
    ground (arith, length-nil, length-cons c s, length-cons c (rstrip kind s), count-rstrip kind s)

pub count-strip : (s : String) → count (strip s) ≤ count s
count-strip s = omega (arith, count-rstrip is_space (lstrip is_space s), count-lstrip is_space s)
