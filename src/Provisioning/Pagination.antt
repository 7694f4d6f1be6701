-- ===== src/Provisioning/Pagination.antt =====
-- `SCIMPagination` of identity/provisioning/filter_parser.py.
pub mod Bounds
mod Tests
use optorch.Base.{ℕ, zero, suc, ◌-◌, Option, none, some, leb, nat_eq, if◌then◌else◌}

-- an integer: a number, or one below zero (`negsuc 0` is -1)
pub data ℤ : Type 0 where
  pos : ℕ → ℤ
  negsuc : ℕ → ℤ

abbrev pub default_count : ℕ
default_count = 50

abbrev pub max_count : ℕ
max_count = 1000

-- `value or default`, of an optional integer
unfoldable pub or_default : Option ℤ → ℕ → ℤ
or_default none default = pos default
or_default (some (pos n)) default = if nat_eq n 0 then pos default else pos n
or_default (some (negsuc n)) default = negsuc n

-- `max(1, n)`
unfoldable pub at_least_one : ℤ → ℕ
at_least_one (pos n) = if leb 1 n then n else 1
at_least_one (negsuc n) = 1

unfoldable pub at_most : ℕ → ℕ → ℕ
at_most bound n = if leb n bound then n else bound

-- the start index, the count and the offset
unfoldable pub parse_params : Option ℤ → Option ℤ → ℕ × ℕ × ℕ
parse_params start_index count =
    let start_idx = at_least_one (or_default start_index 1) in
    let cnt = at_most max_count (at_least_one (or_default count default_count)) in
    (start_idx, cnt, start_idx - 1)
