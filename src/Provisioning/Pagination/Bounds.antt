-- ===== src/Provisioning/Pagination/Bounds.antt =====
-- The bounds of a page.
use optorch.Base.{
  ◌≡◌, ℕ, ◌+◌, ◌*◌, ◌≤◌, Option, some, if◌then◌else◌, refl, nat_eq, Bool, true, false, ap, ◌∙◌,
  arith,
}
use optorch.Provisioning.Pagination.{
  ℤ, pos, negsuc, max_count, default_count, or_default, at_least_one, at_most, parse_params,
}

at_least_one_bounds : (n : ℤ) → 1 ≤ at_least_one n
unfolding at_least_one
at_least_one_bounds (pos n) = ground arith
at_least_one_bounds (negsuc n) = omega arith

at_most_bounds :
    (bound n : ℕ) → 1 ≤ bound → 1 ≤ n → (1 ≤ at_most bound n) × (at_most bound n ≤ bound)
unfolding at_most
at_most_bounds bound n h h' = ground arith

-- Whatever is asked for, missing, zero and negative values included, a page starts at 1 or later, has from 1 to
-- 1000 entries, and its offset is one below the start.
pub parse_params_bounds :
    (start_index count : Option ℤ)
    → let (start_idx, cnt, offset) = parse_params start_index count in
      (1 ≤ start_idx) × (1 ≤ cnt) × (cnt ≤ max_count) × (offset + 1 ≡ start_idx)
unfolding parse_params
parse_params_bounds start_index count =
    let start = at_least_one_bounds (or_default start_index 1) in
    let size =
      at_most_bounds max_count (at_least_one (or_default count default_count)) (omega arith)
        (at_least_one_bounds (or_default count default_count)) in
    (start, size.0, size.1, omega (arith, start))

taken : (n default : ℕ) → 1 ≤ n → at_least_one (or_default (some (pos n)) default) ≡ n
unfolding at_least_one or_default
taken n default h = go (nat_eq n 0) refl
  where
    go : (b : Bool) → nat_eq n 0 ≡ b → at_least_one (if b then pos default else pos n) ≡ n
    go true e = ground (arith, e, h)
    go false e = ground (arith, h)

at_most_small : (bound n : ℕ) → n ≤ bound → at_most bound n ≡ n
unfolding at_most
at_most_small bound n h = ground arith

-- Pages that are asked for one after the other (a count from 1 to 1000, and each start where the page before
-- ended) cover the entries without a gap or an overlap: the offset of page `k` is `k` times the count.
pub parse_params-pages :
    (count k : ℕ)
    → 1 ≤ count
    → count ≤ max_count
    → let (start_idx, cnt, offset) = parse_params (some (pos (k * count + 1))) (some (pos count)) in
      (cnt ≡ count) × (offset ≡ k * count)
unfolding parse_params
parse_params-pages count k h h' = (
  ap (at_most max_count) (taken count default_count h) ∙ at_most_small max_count count h',
  omega (arith, taken (k * count + 1) 1 (omega arith)),
)
