-- ===== src/Workflow/Routing/Schema.antt =====
-- The routes that a `RoutingConfig` of controller/node_config.py can hold: there `on` is a dict or missing, and
-- `conditions` is a list or missing.
use optorch.Base.{
  ◌≡◌, refl, Bool, true, false, String, [], ◌∷◌, some, ok, raise, if◌then◌else◌, ap, ◌∙◌,
}
use optorch.Workflow.State.{State}
use optorch.Workflow.Retry.{type_error}
use optorch.Workflow.Routing.{
  On, no_field, field, table, RoutingConfig, route_conditional, type_of, resolve_type, resolve,
}

-- what the schema admits for the entry "on"
unfoldable pub OnOfSchema : On → Type 0
OnOfSchema no_field = Unit
OnOfSchema (field name) = ¬ Unit
OnOfSchema (table entries) = Unit

pub has_entries : On → Bool
has_entries no_field = false
has_entries (field name) = false
has_entries (table []) = false
has_entries (table (entry ∷ entries)) = true

-- A conditional route that the schema admits never looks at the state or at its conditions: it goes to the default
-- node, and where "on" has an entry it raises a TypeError.
pub resolve-conditional :
    (E : Type 0) (holds : String → State → Bool) (config : RoutingConfig) (state : State)
    → config.route_type ≡ some "conditional"
    → OnOfSchema config.on
    → resolve {E = E} holds (some config) state
      ≡ (if has_entries config.on then raise type_error else ok config.default)
unfolding resolve resolve_type OnOfSchema has_entries route_conditional
resolve-conditional E holds config state conditional admitted =
    ap (λ route_type. resolve_type {E = E} holds (type_of route_type) config state) conditional
    ∙ by_on config.on admitted
  where
    by_on :
        (on : On)
        → OnOfSchema on
        → route_conditional {E = E} on config state
          ≡ (if has_entries on then raise type_error else ok config.default)
    by_on no_field admitted = refl
    by_on (field name) admitted = absurd (admitted tt)
    by_on (table []) admitted = refl
    by_on (table (entry ∷ entries)) admitted = refl
