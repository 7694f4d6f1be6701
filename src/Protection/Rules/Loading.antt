-- ===== src/Protection/Rules/Loading.antt =====
-- Rules loaded from a configuration, as one sequence.
use optorch.Base.{◌≡◌, refl, List, [], ◌∷◌, ◌++◌, map, String, Outcome, ok, raise}
use optorch.Base.Dict.{Dict}
use optorch.Registry.{RegistryError}
use optorch.Protection.Rules.{
  ProtectionConfig, register_all, RawRule, rule_config, Loaded, load_next, load_rules,
  load_from_config,
}

-- every rule of the configuration, in order, as the rule or the missing key
unfoldable pub all_rules :
    List (String × List RawRule) → List (Outcome RegistryError ProtectionConfig)
all_rules [] = []
all_rules ((resource_type, rules) ∷ types) =
    map (rule_config resource_type) rules ++ all_rules types

-- the rules before the first that lacks a key
unfoldable pub complete_rules :
    List (Outcome RegistryError ProtectionConfig) → List ProtectionConfig
complete_rules [] = []
complete_rules (raise problem ∷ rules) = []
complete_rules (ok config ∷ rules) = config ∷ complete_rules rules

-- the first missing key
unfoldable pub first_problem :
    List (Outcome RegistryError ProtectionConfig) → Outcome RegistryError (Unit {0})
first_problem [] = ok tt
first_problem (raise problem ∷ rules) = raise problem
first_problem (ok config ∷ rules) = first_problem rules

abbrev loaded : List (Outcome RegistryError ProtectionConfig) → Dict ProtectionConfig → Loaded
loaded rules items = (first_problem rules, register_all (complete_rules rules) items)

load_rules-loaded :
    (t : String) (rules : List RawRule) (next : Dict ProtectionConfig → Loaded)
    (later : List (Outcome RegistryError ProtectionConfig))
    → ((items : Dict ProtectionConfig) → next items ≡ loaded later items)
    → (items : Dict ProtectionConfig)
    → load_rules t rules next items ≡ loaded (map (rule_config t) rules ++ later) items
unfolding load_rules load_next first_problem complete_rules register_all
load_rules-loaded t [] next later h items = h items
load_rules-loaded t (rule ∷ rules) next later h items =
    go (rule_config t rule) (load_rules-loaded t rules next later h)
  where
    go :
        (config : Outcome RegistryError ProtectionConfig)
        → ((before : Dict ProtectionConfig)
            → load_rules t rules next before ≡ loaded (map (rule_config t) rules ++ later) before)
        → load_next config (load_rules t rules next) items
          ≡ loaded (config ∷ (map (rule_config t) rules ++ later)) items
    go (raise problem) others = refl
    go (ok config) others = others _

-- Loading a configuration registers its rules one after the other, type by type, up to the first rule
-- that lacks a required key: those before it stay registered, and `KeyError` for that key is raised;
-- if no rule lacks one, all are registered.
pub load_from_config-eq :
    (types : List (String × List RawRule)) (items : Dict ProtectionConfig)
    → load_from_config types items
      ≡ (first_problem (all_rules types), register_all (complete_rules (all_rules types)) items)
unfolding load_from_config all_rules first_problem complete_rules register_all
load_from_config-eq [] items = refl
load_from_config-eq ((t, rules) ∷ types) items =
    load_rules-loaded t rules (load_from_config types) (all_rules types) (load_from_config-eq types)
      items
