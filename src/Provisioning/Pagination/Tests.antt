-- ===== src/Provisioning/Pagination/Tests.antt =====
-- Pages of SCIM requests.
use optorch.Base.{◌≡◌, ◌≤◌, ◌+◌, refl, none, some}
use optorch.Provisioning.Pagination.{
  pos, negsuc, max_count, or_default, at_least_one, at_most, parse_params,
}
use optorch.Provisioning.Pagination.Bounds.{parse_params_bounds}

far_below : parse_params (some (negsuc 4)) (some (pos 5000)) ≡ (1, 1000, 0)
unfolding parse_params or_default at_least_one at_most
far_below = refl

parse_params_bounds_example :
    let (start_idx, cnt, offset) = parse_params (some (negsuc 4)) none in
    (1 ≤ start_idx) × (1 ≤ cnt) × (cnt ≤ max_count) × (offset + 1 ≡ start_idx)
parse_params_bounds_example = parse_params_bounds (some (negsuc 4)) none
