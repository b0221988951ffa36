-- ===== src/Tests/Carriers.antt =====
-- Two carriers' quotes, and what is recommended of them.
use automatizacion_wh.Common.{
  ◌≡◌, ◌≢◌, ap, sym, ◌∙◌, refl, ◌≤◌, true, false, none, some, [], ◌∷◌, Text, codes, text_eq,
  text_eq_iff, trim, is_space, Memᴰ, select_one, select_all, ascii, pos, All,
}
use automatizacion_wh.Shipping.Policy.{CarrierPolicy, default_shipping_policy, block}
use automatizacion_wh.Shipping.Selection.{
  CarrierQuote, cop, rule, policy, normalize_policy, normalized_rule, is_eligible_carrier_quote,
  select_recommended_carrier, recommend, configured_quote, alternative, total,
}
use automatizacion_wh.Shipping.Selection.Laws.{
  select_recommended_carrier-IsEligible, select_recommended_carrier_preferred,
  select_recommended_carrier_blocked, select_recommended_carrier_cheapest,
}

abbrev cheap : CarrierQuote
cheap = record {
  carrier = codes "Inter";
  freight_cop = cop (pos 9000);
  cash_on_delivery_cop = cop (pos 1000);
  surcharge_cop = cop (pos 0);
  insurance_cop = none;
}

abbrev dear : CarrierQuote
dear = record {
  carrier = codes "TCC";
  freight_cop = cop (pos 15000);
  cash_on_delivery_cop = cop (pos 1000);
  surcharge_cop = cop (pos 0);
  insurance_cop = some (cop (pos 500));
}

abbrev strict : CarrierPolicy
strict = record default_shipping_policy.carriers {
  preferred_carrier = some (codes "Envia");
  fallback_policy = block;
}

select_recommended_carrier-IsEligible_example :
    (q : CarrierQuote) × Memᴰ q (dear ∷ cheap ∷ [])
    × (is_eligible_carrier_quote ascii q (normalize_policy (rule (some (codes "TCC")))) ≡ true)
    × (q.carrier ≡ codes "TCC")
unfolding select_recommended_carrier recommend configured_quote alternative normalized_rule
    normalize_policy is_eligible_carrier_quote select_one select_all text_eq trim is_space
select_recommended_carrier-IsEligible_example =
    select_recommended_carrier-IsEligible ascii (dear ∷ cheap ∷ []) (rule (some (codes "TCC")))
      (codes "TCC") refl

select_recommended_carrier_preferred_example :
    (c : Text) × (select_recommended_carrier ascii (cheap ∷ dear ∷ []) (rule (some (codes " TCC ")))
      ≡ some c)
    × (ascii.to_lower_case c ≡ codes "tcc")
unfolding normalized_rule normalize_policy is_eligible_carrier_quote trim is_space
select_recommended_carrier_preferred_example =
    select_recommended_carrier_preferred ascii (cheap ∷ dear ∷ []) (rule (some (codes " TCC ")))
      (codes "tcc") {q = dear} refl (Memᴰ.tail (Memᴰ.head refl)) refl refl

only_inter :
    (q : CarrierQuote)
    → Memᴰ q (cheap ∷ [])
    → is_eligible_carrier_quote ascii q (normalize_policy (policy strict)) ≡ true
    → ascii.to_lower_case q.carrier ≢ codes "envia"
unfolding text_eq
only_inter q (Memᴰ.head e) t s =
    let other : ascii.to_lower_case cheap.carrier ≡ codes "envia" =
      ap (λ x. ascii.to_lower_case x.carrier) (sym e) ∙ s in
    let same : false ≡ true =
      (text_eq_iff (ascii.to_lower_case cheap.carrier) (codes "envia")).1 other in
    cc same
only_inter q (Memᴰ.tail m) t s = elim m [ ]

select_recommended_carrier_blocked_example :
    select_recommended_carrier ascii (cheap ∷ []) (policy strict) ≡ none
unfolding normalized_rule normalize_policy trim is_space
select_recommended_carrier_blocked_example =
    select_recommended_carrier_blocked ascii (cheap ∷ []) (policy strict) (codes "envia") refl refl
      only_inter

select_recommended_carrier_cheapest_example :
    (h : CarrierQuote) × (select_recommended_carrier ascii (dear ∷ cheap ∷ []) (rule none)
      ≡ some h.carrier)
    × Memᴰ h (dear ∷ cheap ∷ [])
    × (is_eligible_carrier_quote ascii h (normalize_policy (rule none)) ≡ true)
    × All
        (λ r. total h ≤ total r)
        (select_all
          (λ r. is_eligible_carrier_quote ascii r (normalize_policy (rule none)))
          (dear ∷ cheap ∷ []))
unfolding normalize_policy is_eligible_carrier_quote
select_recommended_carrier_cheapest_example =
    select_recommended_carrier_cheapest ascii (dear ∷ cheap ∷ []) (rule none) {q = cheap} refl refl
      (Memᴰ.tail (Memᴰ.head refl)) refl
