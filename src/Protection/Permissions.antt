-- ===== src/Protection/Permissions.antt =====
-- `ProtectionManager._parse_permission` in identity/protection/manager.py.
use optorch.Base.{
  ◌≡◌, refl, false, ◌++◌, String, List, [], ◌∷◌, Option, none, some, if◌then◌else◌, ◌==◌,
}
use optorch.Base.Texts.{
  split, join, init, last, has_colon, ◌<>◌, split-last, split-no_colon, split-some, join-split,
  init-append, last-append,
}

-- Truth of an optional text in Python: the empty text is false as well.
abbrev pub or_else : Option String → String → String
or_else none other = other
or_else (some s) other = if s == "" then other else s

unfoldable pub parse_parts : String → List String → String × Option String
parse_parts permission [] = (permission, none)
parse_parts permission (part ∷ []) = (permission, none)
parse_parts permission (part ∷ second ∷ []) = (part, some second)
parse_parts permission (part ∷ second ∷ third ∷ parts) =
    (join (init (part ∷ second ∷ third ∷ parts)), some (last third parts))

unfoldable pub parse_permission : String → String × Option String
unfolding parse_parts split join
parse_permission permission = parse_parts permission (split permission)

parse_parts-append :
    (permission part last_part : String) (parts : List String)
    → parse_parts permission ((part ∷ parts) ++ (last_part ∷ []))
      ≡ (join (part ∷ parts), some last_part)
unfolding parse_parts join
parse_parts-append permission part last_part [] = refl
parse_parts-append permission part last_part (next ∷ []) = refl
parse_parts-append permission part last_part (next ∷ third ∷ parts) =
    rw (init-append (third ∷ parts) last_part, last-append third parts last_part) refl

-- With an action that has no colon, the permission `resource:action` is parsed into the resource, with
-- all its colons, and the action; and an action alone is parsed as a resource without an action.
pub parse_permission_roundtrip :
    (resource action : String)
    → has_colon action ≡ false
    → (parse_permission (resource <> ":" <> action) ≡ (resource, some action))
      × (parse_permission action ≡ (action, none))
unfolding parse_permission parse_parts
parse_permission_roundtrip resource action h =
    let (part, parts, e) = split-some resource in
    (
      rw
          (
            split-last resource action h,
            e,
            parse_parts-append (resource <> ":" <> action) part action parts,
            ← e,
            join-split resource,
          )
          refl,
      rw (split-no_colon action h) refl,
    )
