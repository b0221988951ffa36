-- ===== src/Shipping/Policy.antt =====
-- apps/api/src/modules/shipping/shipping-policy.ts and the refinements of ShippingPolicySchema in
-- packages/contracts/src/shipping.ts. A field that may be `undefined` or `null` is an `Option`;
-- where the two differ nothing reads the difference.
use automatizacion_wh.Common.{
  ℕ, Bool, true, false, not, ◌&&◌, ◌||◌, Option, none, some, List, [], ◌∷◌, ◌++◌, Text, includes,
  leb, if◌then◌else◌, is_some, or_else,
}

pub data OfferMode : Type 0 where
  customer_choice economy_only protected_only : OfferMode

pub data InsuranceMode : Type 0 where
  no_insurance standard plus : InsuranceMode

pub data FallbackPolicy : Type 0 where
  allow block : FallbackPolicy

pub record PackageDefaults : Type 0 where
  pub weight_kg : ℕ
  pub length_cm : ℕ
  pub width_cm : ℕ
  pub height_cm : ℕ
  pub contents : Option Text

-- CarrierSelectionPolicy, the part of a policy that chooses the carrier.
pub record CarrierPolicy : Type 0 where
  pub preferred_carrier : Option Text
  pub fallback_policy : FallbackPolicy
  pub allowed_carriers : Option (List Text)
  pub excluded_carriers : Option (List Text)
  pub ordered_carriers : Option (List Text)

pub record ShippingPolicy : Type 0 where
  pub carriers : CarrierPolicy
  pub revision : Option ℕ
  pub offer_mode : OfferMode
  pub protected_insurance : InsuranceMode
  pub insurance_threshold_cop : Option ℕ
  pub package_defaults : Option PackageDefaults

pub record MunicipalityPolicy : Type 0 where
  pub active : Bool
  pub policy : ShippingPolicy

abbrev pub default_shipping_policy : ShippingPolicy
default_shipping_policy = record {
  carriers = record {
    preferred_carrier = none;
    fallback_policy = allow;
    allowed_carriers = none;
    excluded_carriers = none;
    ordered_carriers = none;
  };
  revision = none;
  offer_mode = customer_choice;
  protected_insurance = standard;
  insurance_threshold_cop = none;
  package_defaults = none;
}

-- resolveShippingPolicy: the spread of the municipal policy already holds the four fields that
-- the source writes again.
unfoldable pub resolve_shipping_policy : ShippingPolicy → Option MunicipalityPolicy → ShippingPolicy
resolve_shipping_policy defaults none = defaults
resolve_shipping_policy defaults (some m) = if not m.active then defaults else m.policy

abbrev pub is_economy_only : OfferMode → Bool
is_economy_only economy_only = true
is_economy_only _ = false

abbrev pub is_protected_only : OfferMode → Bool
is_protected_only protected_only = true
is_protected_only _ = false

abbrev reaches_threshold : Option ℕ → ℕ → Bool
reaches_threshold none declared = false
reaches_threshold (some threshold) declared = leb threshold declared

-- shippingOfferInsurances.
unfoldable pub shipping_offer_insurances : ShippingPolicy → ℕ → List InsuranceMode
shipping_offer_insurances policy declared_value_cop =
    if is_economy_only policy.offer_mode
    then no_insurance ∷ []
    else if is_protected_only policy.offer_mode
        || reaches_threshold policy.insurance_threshold_cop declared_value_cop
    then policy.protected_insurance ∷ []
    else no_insurance ∷ []

-- `new Set(list).size === list.length`.
unfoldable pub all_distinct : List Text → Bool
all_distinct [] = true
all_distinct (s ∷ l) = not (includes l s) && all_distinct l

-- `allowed.some((carrier) => excluded.includes(carrier))`.
unfoldable pub overlaps : List Text → List Text → Bool
overlaps [] excluded = false
overlaps (s ∷ l) excluded = includes excluded s || overlaps l excluded

abbrev is_empty : List Text → Bool
is_empty [] = true
is_empty (t ∷ ts) = false

-- The `every` over the candidates.
unfoldable pub all_candidates_offered : List Text → List Text → List Text → Bool
all_candidates_offered allowed excluded [] = true
all_candidates_offered allowed excluded (s ∷ l) =
    not (includes excluded s)
    && (is_empty allowed || includes allowed s)
    && all_candidates_offered allowed excluded l

abbrev preferred_list : Option Text → List Text
preferred_list none = []
preferred_list (some s) = s ∷ []

abbrev pub is_block : FallbackPolicy → Bool
is_block block = true
is_block allow = false

-- The two `refine` steps of ShippingPolicySchema.
unfoldable pub has_consistent_carriers : CarrierPolicy → Bool
unfolding all_distinct overlaps all_candidates_offered
has_consistent_carriers p =
    let allowed = or_else p.allowed_carriers [] in
    let excluded = or_else p.excluded_carriers [] in
    let ordered = or_else p.ordered_carriers [] in
    (not (is_block p.fallback_policy) || is_some p.preferred_carrier)
    && all_distinct allowed
    && all_distinct excluded
    && all_distinct ordered
    && not (overlaps allowed excluded)
    && all_candidates_offered allowed excluded (preferred_list p.preferred_carrier ++ ordered)

-- ShippingPolicySchema.safeParse of a stored snapshot. The argument is the snapshot with its fields
-- already checked one by one: `none` is JSON of another shape.
unfoldable pub parse_policy : Option ShippingPolicy → Option ShippingPolicy
unfolding has_consistent_carriers
parse_policy none = none
parse_policy (some p) = if has_consistent_carriers p.carriers then some p else none
