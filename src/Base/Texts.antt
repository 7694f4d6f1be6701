-- ===== src/Base/Texts.antt =====
-- Texts joined and split at a colon: Python's `s.split(":")`, `":".join(parts)` and f-strings.
use Prim.Native.Nat.{Ordering, compare as compare_ℕ}
use Prim.Native.Char.{Char, code}
use Prim.Native.String as S
use Prim.Native.String.{String}
use mathlib.Core.Bool.{Bool, true, false, ◌||◌}
use mathlib.Core.List.{List, [], ◌∷◌, ◌++◌}
use mathlib.Core.Path.{◌≡◌, refl, sym, ap, ◌∙◌}
use native.Mathlib.Omega.{arith}
use text.Mathlib.TextLemmas.{cons-append, nil-append}
use text.Mathlib.TextEquality.{codes_equal}
use optorch.Base.Tests.{if◌then◌else◌, if_both}

infixr 65 ◌<>◌
abbrev pub ◌<>◌ : String → String → String
s <> t = S.◌++◌ s t

abbrev colon : Char
colon = ":"

abbrev pub is_colon : Char → Bool
is_colon c = elim (compare_ℕ (code c) b':') [ Ordering.eq ↦ true | _ ↦ false ]

unfoldable pub has_colon : String → Bool
has_colon S.[] = false
has_colon (S.◌∷◌ c s) = is_colon c || has_colon s

-- a character put before the first part
abbrev pub onto_first : Char → List String → List String
onto_first c [] = (S.◌∷◌ c S.[]) ∷ []
onto_first c (part ∷ parts) = (S.◌∷◌ c part) ∷ parts

-- `s.split(":")`
unfoldable pub split : String → List String
split S.[] = S.[] ∷ []
split (S.◌∷◌ c s) = let rest = split s in if is_colon c then S.[] ∷ rest else onto_first c rest

-- `parts[:-1]` and `parts[-1]`
abbrev pub init : List String → List String
init [] = []
init (part ∷ []) = []
init (part ∷ next ∷ parts) = part ∷ init (next ∷ parts)

abbrev pub last : String → List String → String
last part [] = part
last part (next ∷ parts) = last next parts

-- `":".join(parts)`
unfoldable pub join : List String → String
join [] = ""
join (part ∷ []) = part
join (part ∷ next ∷ parts) = part <> ":" <> join (next ∷ parts)

pub split-some : (s : String) → (part : String) × (parts : List String) × (split s ≡ part ∷ parts)
unfolding split
split-some S.[] = (S.[], [], refl)
split-some (S.◌∷◌ c s) =
    let (part, parts, e) = split-some s in
    elim (is_colon c)
      as (λ b.
        (p : String) × (ps : List String) × ((if b then S.[] ∷ split s else onto_first c (split s))
          ≡ p ∷ ps)) [ true ↦ (S.[], split s, refl) | false ↦ (S.◌∷◌ c part, parts, rw e refl) ]

pub split-no_colon : (s : String) → has_colon s ≡ false → split s ≡ s ∷ []
unfolding split has_colon
split-no_colon S.[] h = refl
split-no_colon (S.◌∷◌ c s) h = ground (arith, split-no_colon s)

onto_first-append :
    (c : Char) (s last : String)
    → onto_first c (split s ++ (last ∷ [])) ≡ onto_first c (split s) ++ (last ∷ [])
onto_first-append c s last = let (part, parts, e) = split-some s in rw e refl

colon-cons : (c : Char) (s : String) → is_colon c ≡ true → S.◌∷◌ c s ≡ ":" <> s
colon-cons c s h =
    let same = codes_equal c colon (is_eq (compare_ℕ (code c) b':') h) in
    rw same (sym (cons-append colon S.[] s ∙ ap (S.◌∷◌ colon) (nil-append s)))
  where
    is_eq : (o : Ordering) → (elim o [ Ordering.eq ↦ true | _ ↦ false ]) ≡ true → o ≡ Ordering.eq
    is_eq Ordering.eq e = refl
    is_eq Ordering.lt e = ground (arith, e)
    is_eq Ordering.gt e = ground (arith, e)

pub split-last :
    (s last : String) → has_colon last ≡ false → split (s <> ":" <> last) ≡ split s ++ (last ∷ [])
unfolding split
split-last S.[] last h =
    rw (nil-append (":" <> last), cons-append colon S.[] last, nil-append last)
      (ap (S.[] ∷◌) (split-no_colon last h))
split-last (S.◌∷◌ c s) last h =
    rw (cons-append c s (":" <> last), split-last s last h)
      (ground (arith, onto_first-append c s last))

join-onto_first :
    (c : Char) (part : String) (parts : List String)
    → join (onto_first c (part ∷ parts)) ≡ S.◌∷◌ c (join (part ∷ parts))
unfolding join
join-onto_first c part [] = refl
join-onto_first c part (next ∷ parts) = cons-append c part (":" <> join (next ∷ parts))

join-after_colon : (s : String) → join ("" ∷ split s) ≡ ":" <> join (split s)
unfolding join
join-after_colon s =
    let (part, parts, e) = split-some s in rw e (nil-append (":" <> join (part ∷ parts)))

pub join-split : (s : String) → join (split s) ≡ s
unfolding split join
join-split S.[] = refl
join-split (S.◌∷◌ c s) =
    if_both (λ parts. join parts ≡ S.◌∷◌ c s) (is_colon c) ("" ∷ split s) (onto_first c (split s))
      (λ h. join-after_colon s ∙ ap (":" <>◌) (join-split s) ∙ sym (colon-cons c s h))
      (λ _.
        let (part, parts, e) = split-some s in
        rw (e, join-onto_first c part parts, ← e) (ap (S.◌∷◌ c) (join-split s)))

pub init-append : (parts : List String) (part : String) → init (parts ++ (part ∷ [])) ≡ parts
init-append [] part = refl
init-append (first ∷ []) part = refl
init-append (first ∷ next ∷ parts) part = ap (first ∷◌) (init-append (next ∷ parts) part)

pub last-append :
    (first : String) (parts : List String) (part : String)
    → last first (parts ++ (part ∷ [])) ≡ part
last-append first [] part = refl
last-append first (next ∷ parts) part = last-append next parts part

pub split-first :
    (first s : String) → has_colon first ≡ false → split (first <> ":" <> s) ≡ first ∷ split s
unfolding split has_colon
split-first S.[] s h = rw (nil-append (":" <> s), cons-append colon S.[] s, nil-append s) refl
split-first (S.◌∷◌ c first) s h =
    rw (cons-append c first (":" <> s)) (ground (arith, split-first first s))
