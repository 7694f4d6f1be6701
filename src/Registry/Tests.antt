-- ===== src/Registry/Tests.antt =====
-- registry.py on concrete changes.
use optorch.Base.{◌≡◌, refl, ℕ, [], ◌∷◌, List}
use optorch.Base.Dict
use optorch.Registry.{Change, registered, unregistered, apply, apply_all, list_keys}

abbrev changes : List (Change ℕ)
changes = registered "a" 1 ∷ registered "b" 2 ∷ registered "a" 3 ∷ unregistered "b" ∷ []

keys_left : list_keys (apply_all changes []) ≡ "a" ∷ []
unfolding list_keys apply_all apply Dict.insert Dict.erase Dict.keys
keys_left = refl
