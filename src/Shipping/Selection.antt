-- ===== src/Shipping/Selection.antt =====
-- apps/api/src/modules/shipping/shipping-selection.ts. Amounts are whole pesos; what is not a
-- finite number is `not_finite`.
pub mod Laws
use automatizacion_wh.Common.{
  ℕ, ◌+◌, Bool, true, false, not, ◌&&◌, Option, none, some, List, [], ◌∷◌, Text, text_eq, includes,
  trim, Unicode, leb, if◌then◌else◌, is_some, or_else, select_one, select_all, ℤ, pos, negsuc,
}
use automatizacion_wh.Shipping.Policy.{CarrierPolicy, allow, is_block}

pub data Amount : Type 0 where
  cop : ℤ → Amount
  not_finite : Amount

pub record CarrierQuote : Type 0 where
  pub carrier : Text
  pub freight_cop : Amount
  pub cash_on_delivery_cop : Amount
  pub surcharge_cop : Amount
  pub insurance_cop : Option Amount

-- The argument `policy: string | null | CarrierSelectionPolicy`.
pub data PolicyInput : Type 0 where
  rule : Option Text → PolicyInput
  policy : CarrierPolicy → PolicyInput

unfoldable pub normalize_policy : PolicyInput → CarrierPolicy
normalize_policy (rule r) = record {
  preferred_carrier = r;
  fallback_policy = allow;
  allowed_carriers = none;
  excluded_carriers = none;
  ordered_carriers = none;
}
normalize_policy (policy p) = p

-- `Number.isFinite(cost) && cost >= 0`.
abbrev pub is_charge : Amount → Bool
is_charge (cop (pos n)) = true
is_charge (cop (negsuc n)) = false
is_charge not_finite = false

abbrev pub is_allowed : Option (List Text) → Text → Bool
is_allowed none carrier = true
is_allowed (some []) carrier = true
is_allowed (some (s ∷ l)) carrier = includes (s ∷ l) carrier

abbrev pub is_excluded : Option (List Text) → Text → Bool
is_excluded none carrier = false
is_excluded (some l) carrier = includes l carrier

-- The value of a charge; it is read of eligible quotes only, whose amounts are charges.
abbrev value : Amount → ℕ
value (cop (pos n)) = n
value _ = 0

pub total : CarrierQuote → ℕ
total q =
    value q.freight_cop
    + value q.cash_on_delivery_cop
    + value q.surcharge_cop
    + value (or_else q.insurance_cop (cop (pos 0)))

-- `sort` of JavaScript is stable: a quote stays before those of its price that follow it.
insert_quote : CarrierQuote → List CarrierQuote → List CarrierQuote
insert_quote q [] = q ∷ []
insert_quote q (r ∷ rs) = if leb (total q) (total r) then q ∷ r ∷ rs else r ∷ insert_quote q rs

pub sort_quotes : List CarrierQuote → List CarrierQuote
sort_quotes [] = []
sort_quotes (q ∷ qs) = insert_quote q (sort_quotes qs)

abbrev first_carrier : List CarrierQuote → Option Text
first_carrier [] = none
first_carrier (q ∷ qs) = some q.carrier

abbrev normalized : Unicode → Option Text → Option Text
normalized u none = none
normalized u (some r) = some (u.to_lower_case (trim r))

-- The quote found, or the cheapest one.
abbrev or_cheapest : Option CarrierQuote → List CarrierQuote → Option Text
or_cheapest (some q) eligible = some q.carrier
or_cheapest none eligible = first_carrier (sort_quotes eligible)

module _ (u : Unicode) where
  unfoldable pub is_eligible_carrier_quote : CarrierQuote → CarrierPolicy → Bool
  is_eligible_carrier_quote quote p =
      let carrier = u.to_lower_case quote.carrier in
      is_allowed p.allowed_carriers carrier
      && not (is_excluded p.excluded_carriers carrier)
      && is_charge quote.freight_cop
      && is_charge quote.cash_on_delivery_cop
      && is_charge quote.surcharge_cop
      && is_charge (or_else quote.insurance_cop (cop (pos 0)))

  -- `quote.carrier.toLowerCase() === carrier`.
  abbrev pub is_carrier : Text → CarrierQuote → Bool
  is_carrier carrier q = text_eq (u.to_lower_case q.carrier) carrier

  -- `policy.preferredCarrier?.trim().toLowerCase() ?? null`.
  unfoldable pub normalized_rule : CarrierPolicy → Option Text
  normalized_rule p = normalized u p.preferred_carrier

  -- `eligible.find((quote) => quote.carrier.toLowerCase() === normalizedRule)`.
  unfoldable pub configured_quote : Option Text → List CarrierQuote → Option CarrierQuote
  configured_quote none eligible = none
  configured_quote (some r) eligible = select_one (is_carrier r) eligible

  -- The loop over the ordered carriers.
  unfoldable pub first_alternative : List Text → List CarrierQuote → Option CarrierQuote
  first_alternative [] eligible = none
  first_alternative (c ∷ cs) eligible = elim (select_one (is_carrier c) eligible) [
    | some q ↦ some q
    | none ↦ first_alternative cs eligible
  ]

  -- What is left to try when no eligible quote is the preferred carrier's.
  unfoldable pub alternative : CarrierPolicy → List CarrierQuote → Option Text
  alternative p eligible =
      if is_some (normalized_rule p) && is_block p.fallback_policy
      then none
      else or_cheapest (first_alternative (or_else p.ordered_carriers []) eligible) eligible

  unfoldable pub recommend : CarrierPolicy → List CarrierQuote → Option Text
  recommend p eligible = elim (configured_quote (normalized_rule p) eligible) [
    | some q ↦ some q.carrier
    | none ↦ alternative p eligible
  ]

  unfoldable pub select_recommended_carrier : List CarrierQuote → PolicyInput → Option Text
  unfolding recommend normalize_policy
  select_recommended_carrier quotes input =
      let p = normalize_policy input in
      recommend p (select_all (λ q. is_eligible_carrier_quote q p) quotes)
