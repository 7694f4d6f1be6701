-- ===== src/Constraints/Location.antt =====
-- constraints/location.py: LocationConstraint.evaluate. `upper` is Python's `str.upper`; `in_network` is
-- the module `ipaddress`: whether an address lies in a network, or `ValueError`.
use optorch.Base.{
  ◌>>=◌, ◌≢◌, ◌⊎◌, inl, inr, str_eq_self, ◌≡◌, refl, ap, ◌∙◌, true, false, Bool, not, Option, none,
  some, String, List, [], ◌∷◌, elem, Outcome, ok, raise, arith, if◌then◌else◌, ◌==◌, eq_iff,
}
use optorch.Base.Dict
use optorch.Base.Dict.{Dict}
use optorch.Registry.{RegistryError, not_registered}
use optorch.Constraints.Models.{ConstraintContext}

pub record LocationConstraintConfig (Float : Type 0) : Type 0 where
  pub allowed_countries : Option (List String)
  pub blocked_countries : Option (List String)
  pub allowed_ip_ranges : Option (List String)
  pub geofence_bounds : Option (Dict Float)

-- Python's truth of an optional list, with the list
abbrev pub entries {ℓ} : {A : Type ℓ} → Option (List A) → List A
entries none = []
entries (some xs) = xs

module _ (upper : String → String) where
  unfoldable pub upper_all : List String → List String
  upper_all [] = []
  upper_all (country ∷ countries) = upper country ∷ upper_all countries

  -- `(country_code or "").upper()`
  unfoldable pub country_of : Option String → String
  country_of none = upper ""
  country_of (some code) = upper code

  unfoldable pub not_allowed : List String → Option String → Bool
  not_allowed [] country_code = false
  not_allowed (c ∷ countries) country_code =
      not (elem (country_of country_code) (upper_all (c ∷ countries)))

  -- no blocked country is in an empty list
  unfoldable pub blocked : List String → Option String → Bool
  blocked countries country_code = elem (country_of country_code) (upper_all countries)

-- the answer of `ipaddress` for a client and a range: `raise` is ValueError, before or after others
module _ (in_network : String → String → Outcome (Unit {0}) Bool) where
  unfoldable pub check_next : Outcome (Unit {0}) Bool → Bool → Bool
  check_next (raise problem) rest = false
  check_next (ok true) rest = true
  check_next (ok false) rest = rest

  -- the loop over the ranges, with `except ValueError` giving False
  unfoldable pub in_ranges : String → List String → Bool
  in_ranges client [] = false
  in_ranges client (cidr ∷ ranges) = check_next (in_network client cidr) (in_ranges client ranges)

  unfoldable pub check_ip_ranges : List String → Option String → Bool
  check_ip_ranges [] client_ip = true
  check_ip_ranges (cidr ∷ ranges) none = false
  check_ip_ranges (cidr ∷ ranges) (some client) =
      if client == "" then false else in_ranges client (cidr ∷ ranges)

-- the sum of the library's functions that the constraint calls
pub record Libraries (Float : Type 0) : Type 0 where
  pub upper : String → String
  pub in_network : String → String → Outcome (Unit {0}) Bool
  pub le : Float → Float → Bool

module _ {Float : Type 0} (lib : Libraries Float) where
  -- `bounds[key]`
  abbrev pub bound : String → Dict Float → Outcome RegistryError Float
  bound key bounds = elim (Dict.get key bounds) [
    | none ↦ raise (not_registered key)
    | some b ↦ ok b
  ]

  -- `bounds[low] <= value <= bounds[high]`, which reads the second bound only if the first holds
  unfoldable pub in_interval : Dict Float → String → String → Float → Outcome RegistryError Bool
  in_interval bounds low high value = bound low bounds >>= λ lower.
      if lib.le lower value
      then (bound high bounds >>= λ higher. ok (lib.le value higher))
      else ok false

  abbrev pub and_then : Bool → Outcome RegistryError Bool → Outcome RegistryError Bool
  and_then false second = ok false
  and_then true second = second

  unfoldable pub in_bounds : Dict Float → Float → Float → Outcome RegistryError Bool
  in_bounds bounds lat lon = in_interval bounds "min_lat" "max_lat" lat >>= λ first.
      and_then first (in_interval bounds "min_lon" "max_lon" lon)

  unfoldable pub check_geofence :
      Dict Float → Option Float → Option Float → Outcome RegistryError Bool
  check_geofence [] lat lon = ok true
  check_geofence (b ∷ bounds) none lon = ok false
  check_geofence (b ∷ bounds) (some lat) none = ok false
  check_geofence (b ∷ bounds) (some lat) (some lon) = in_bounds (b ∷ bounds) lat lon

  unfoldable pub evaluate :
      LocationConstraintConfig Float → ConstraintContext Float → Outcome RegistryError Bool
  evaluate config context =
      let here = context.environment in
      if not_allowed lib.upper (entries config.allowed_countries) here.country_code
      then ok false
      else if blocked lib.upper (entries config.blocked_countries) here.country_code
      then ok false
      else if not
          (check_ip_ranges lib.in_network (entries config.allowed_ip_ranges) here.ip_address)
      then ok false
      else check_geofence (entries config.geofence_bounds) here.latitude here.longitude

  elem-upper_all :
      (country : String) (countries : List String)
      → elem country countries ≡ true
      → elem (lib.upper country) (upper_all lib.upper countries) ≡ true
  unfolding elem upper_all
  elem-upper_all country [] h = h
  elem-upper_all country (c ∷ countries) h =
      ground
        (arith, h, elem-upper_all country countries, eq_iff country c, str_eq_self (lib.upper c))

  blocked-known :
      (country : String) (countries : List String) (code : Option String)
      → code ≡ some country
      → elem country countries ≡ true
      → blocked lib.upper countries code ≡ true
  unfolding blocked country_of
  blocked-known country countries code here h =
      ap (blocked lib.upper countries) here ∙ elem-upper_all country countries h

  check_ip_ranges-missing :
      (ranges : List String) (client : Option String)
      → ranges ≢ []
      → client ≡ none
      → check_ip_ranges lib.in_network ranges client ≡ false
  unfolding check_ip_ranges
  check_ip_ranges-missing [] client restricted missing = absurd (restricted refl)
  check_ip_ranges-missing (cidr ∷ ranges) client restricted missing =
      ap (check_ip_ranges lib.in_network (cidr ∷ ranges)) missing

  check_geofence-missing :
      (bounds : Dict Float) (lat lon : Option Float)
      → bounds ≢ []
      → (lat ≡ none) ⊎ (lon ≡ none)
      → check_geofence bounds lat lon ≡ ok false
  unfolding check_geofence
  check_geofence-missing [] lat lon fenced missing = absurd (fenced refl)
  check_geofence-missing (b ∷ bounds) none lon fenced missing = refl
  check_geofence-missing (b ∷ bounds) (some lat) none fenced missing = refl
  check_geofence-missing (b ∷ bounds) (some lat) (some lon) fenced (inl missing) =
      ground (arith, missing)
  check_geofence-missing (b ∷ bounds) (some lat) (some lon) fenced (inr missing) =
      ground (arith, missing)

  -- A context of a blocked country is denied, whatever else the configuration allows.
  pub evaluate-blocked :
      (config : LocationConstraintConfig Float) (context : ConstraintContext Float)
      (country : String)
      → context.environment.country_code ≡ some country
      → elem country (entries config.blocked_countries) ≡ true
      → evaluate config context ≡ ok false
  unfolding evaluate
  evaluate-blocked config context country here h = ground (
    arith,
    blocked-known country (entries config.blocked_countries) context.environment.country_code here
        h,
  )

  -- Where addresses are restricted a context without an address is denied, and where a geofence is set
  -- a context without a latitude or without a longitude is denied, and neither raises.
  pub evaluate-missing :
      (config : LocationConstraintConfig Float) (context : ConstraintContext Float)
      → ((entries config.allowed_ip_ranges ≢ []) × (context.environment.ip_address ≡ none))
        ⊎ ((entries config.geofence_bounds ≢ [])
            × ((context.environment.latitude ≡ none) ⊎ (context.environment.longitude ≡ none)))
      → evaluate config context ≡ ok false
  unfolding evaluate
  evaluate-missing config context (inl (restricted, missing)) = ground (
    arith,
    check_ip_ranges-missing (entries config.allowed_ip_ranges) context.environment.ip_address
        restricted missing,
  )
  evaluate-missing config context (inr (fenced, missing)) = ground (
    arith,
    check_geofence-missing (entries config.geofence_bounds) context.environment.latitude
        context.environment.longitude fenced missing,
  )
