-- ===== src/Authorization/Memory/Tests.antt =====
-- identity/authorization/providers/memory.py on concrete policies.
use optorch.Base.{◌≡◌, refl, true}
use optorch.Authorization.Memory.{matches, matches_prefix}

prefix_matches : matches "work*" "workflow" ≡ true
unfolding matches matches_prefix
prefix_matches = refl
