-- ===== src/Workflow/Routing/Targets.antt =====
-- Where a route can lead.
use optorch.Base.{
  ◌≡◌, refl, Bool, String, List, [], ◌∷◌, Option, none, some, Outcome, ok, raise, ◌==◌, arith, inl,
  inr, if_both, In,
}
use mathlib.Core.Option.{some-injective}
use optorch.Base.Dict
use optorch.Base.Dict.{Dict}
use optorch.Workflow.State.{Value, null, text, flag, object, State, get}
use optorch.Workflow.Retry.{Failure}
use optorch.Workflow.Routing.{
  On, no_field, field, table, Rule, Conditions, no_conditions, by_value, rules, RoutingConfig,
  route_value, route_conditional, apply_rule, route_dynamic, route_rules, type_of, resolve_type,
  resolve,
}

dict_targets : Dict (Option String) → List (Option String)
dict_targets [] = []
dict_targets ((value, target) ∷ entries) = target ∷ dict_targets entries

rule_targets : List Rule → List (Option String)
rule_targets [] = []
rule_targets (rule ∷ others) = elim rule.target [
  | none ↦ rule_targets others
  | some target ↦ target ∷ rule_targets others
]

targets : Conditions → List (Option String)
targets no_conditions = []
targets (by_value entries) = dict_targets entries
targets (rules list) = rule_targets list

-- the nodes that a routing section names
pub named : RoutingConfig → List (Option String)
named config = config.next ∷ config.default ∷ targets config.conditions

-- the route leads to one of these nodes, if it leads anywhere
unfoldable pub LeadsInto : {E : Type 0} → List (Option String) → Outcome E (Option String) → Type 0
LeadsInto nodes (raise error) = Unit
LeadsInto nodes (ok none) = Unit
LeadsInto nodes (ok (some node)) = In (some node) nodes

get-In_targets :
    (value : String) (entries : Dict (Option String)) (target : Option String)
    → Dict.get value entries ≡ some target
    → In target (dict_targets entries)
unfolding Dict.get dict_targets
get-In_targets value [] target e = ground (arith, e)
get-In_targets value ((key, first) ∷ entries) target e =
    if_both
      (λ (found : Option (Option String)).
        found ≡ some target → In target (first ∷ dict_targets entries))
      (key == value) _ _ (λ _ e. inl (some-injective _ _ e))
      (λ _ e. inr (get-In_targets value entries target e)) e

module _ (E : Type 0) (nodes : List (Option String)) where
  LeadsInto-ok : (node : Option String) → In node nodes → LeadsInto {E = E} nodes (ok node)
  unfolding LeadsInto
  LeadsInto-ok none member = tt
  LeadsInto-ok (some node) member = member

-- every target is one of the nodes
Listed : List (Option String) → List (Option String) → Type 0
Listed nodes conditions = (target : Option String) → In target conditions → In target nodes

module _ (E : Type 0) (holds : String → State → Bool) (nodes : List (Option String))
    (default : Option String) (default_member : In default nodes) where
  route_value-LeadsInto :
      (conditions : Conditions) (value : Value)
      → Listed nodes (targets conditions)
      → LeadsInto nodes (route_value {E = E} conditions default value)
  unfolding route_value Listed targets
  route_value-LeadsInto no_conditions value listed =
      LeadsInto-ok (Failure E) nodes default default_member
  route_value-LeadsInto (rules list) value listed =
      LeadsInto-ok (Failure E) nodes default default_member
  route_value-LeadsInto (by_value entries) null listed =
      LeadsInto-ok (Failure E) nodes default default_member
  route_value-LeadsInto (by_value entries) (flag b) listed =
      LeadsInto-ok (Failure E) nodes default default_member
  route_value-LeadsInto (by_value entries) (object b name) listed =
      LeadsInto-ok (Failure E) nodes default default_member
  route_value-LeadsInto (by_value entries) (text value) listed = found (Dict.get value entries) refl
    where
      found :
          (o : Option (Option String))
          → Dict.get value entries ≡ o
          → LeadsInto {E = Failure E} nodes (elim o [ none ↦ ok default | some target ↦ ok target ])
      found none e = LeadsInto-ok (Failure E) nodes default default_member
      found (some target) e =
          LeadsInto-ok (Failure E) nodes target
            (listed target (get-In_targets value entries target e))

  route_dynamic-LeadsInto :
      (list : List Rule) (state : State)
      → Listed nodes (rule_targets list)
      → LeadsInto nodes (route_dynamic {E = E} holds list default state)
  unfolding route_dynamic apply_rule Listed rule_targets LeadsInto
  route_dynamic-LeadsInto [] state listed = LeadsInto-ok (Failure E) nodes default default_member
  route_dynamic-LeadsInto (rule ∷ others) state listed =
      by_rule rule.condition rule.target listed (route_dynamic-LeadsInto others state)
    where
      by_rule :
          (condition : Option String) (target : Option (Option String))
          → Listed nodes (rule_targets (record { condition = condition; target = target } ∷ others))
          → (Listed nodes (rule_targets others)
              → LeadsInto nodes (route_dynamic {E = E} holds others default state))
          → LeadsInto nodes (
              apply_rule {E = E} holds
                (record { condition = condition; target = target })
                state
                (route_dynamic holds others default state))
      by_rule none target listed later = tt
      by_rule (some condition) none listed later =
          if_both (LeadsInto {E = Failure E} nodes) (holds condition state) _ _ (λ _. tt)
            (λ _. later listed)
      by_rule (some condition) (some target) listed later =
          if_both (LeadsInto {E = Failure E} nodes) (holds condition state) _ _
            (λ _. LeadsInto-ok (Failure E) nodes target (listed target (inl refl)))
            (λ _. later (λ t member. listed t (inr member)))

  route_rules-LeadsInto :
      (conditions : Conditions) (state : State)
      → Listed nodes (targets conditions)
      → LeadsInto nodes (route_rules {E = E} holds conditions default state)
  unfolding route_rules targets LeadsInto
  route_rules-LeadsInto no_conditions state listed =
      LeadsInto-ok (Failure E) nodes default default_member
  route_rules-LeadsInto (rules list) state listed = route_dynamic-LeadsInto list state listed
  route_rules-LeadsInto (by_value []) state listed =
      LeadsInto-ok (Failure E) nodes default default_member
  route_rules-LeadsInto (by_value (entry ∷ entries)) state listed = tt

In-next : (config : RoutingConfig) → In config.next (named config)
unfolding named
In-next config = inl refl

In-default : (config : RoutingConfig) → In config.default (named config)
unfolding named
In-default config = inr (inl refl)

Listed-targets : (config : RoutingConfig) → Listed (named config) (targets config.conditions)
unfolding named Listed
Listed-targets config target member = inr (inr member)

route_conditional-LeadsInto :
    (E : Type 0) (holds : String → State → Bool) (on : On) (config : RoutingConfig) (state : State)
    → LeadsInto (named config) (route_conditional {E = E} on config state)
unfolding route_conditional LeadsInto
route_conditional-LeadsInto E holds no_field config state =
    LeadsInto-ok (Failure E) (named config) config.default (In-default config)
route_conditional-LeadsInto E holds (table []) config state =
    LeadsInto-ok (Failure E) (named config) config.default (In-default config)
route_conditional-LeadsInto E holds (table (entry ∷ entries)) config state = tt
route_conditional-LeadsInto E holds (field name) config state =
    if_both (LeadsInto {E = Failure E} (named config)) (name == "") _ _
      (λ _. LeadsInto-ok (Failure E) (named config) config.default (In-default config))
      (λ _.
        route_value-LeadsInto E holds (named config) config.default (In-default config)
          config.conditions (get name state) (Listed-targets config))

pub resolve-LeadsInto :
    (E : Type 0) (holds : String → State → Bool) (config : RoutingConfig) (state : State)
    → LeadsInto (named config) (resolve {E = E} holds (some config) state)
unfolding resolve resolve_type LeadsInto
resolve-LeadsInto E holds config state =
    if_both P (type_of config.route_type == "end") _ _ (λ _. tt)
      (λ _.
        if_both P (type_of config.route_type == "static") _ _
          (λ _. LeadsInto-ok (Failure E) (named config) config.next (In-next config))
          (λ _.
            if_both P (type_of config.route_type == "conditional") _ _
              (λ _. route_conditional-LeadsInto E holds config.on config state)
              (λ _.
                if_both P (type_of config.route_type == "dynamic") _ _
                  (λ _.
                    route_rules-LeadsInto E holds (named config) config.default (In-default config)
                      config.conditions state (Listed-targets config))
                  (λ _.
                    LeadsInto-ok (Failure E) (named config) config.default (In-default config)))))
  where
    P : Outcome (Failure E) (Option String) → Type 0
    P = LeadsInto (named config)
