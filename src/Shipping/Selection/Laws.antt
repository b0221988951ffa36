-- ===== src/Shipping/Selection/Laws.antt =====
-- What the choice of a carrier guarantees (apps/api/src/modules/shipping/shipping-selection.ts).
mod Sorting
use automatizacion_wh.Common.{
  ℕ, ◌≤◌, ◌≡◌, ◌≢◌, refl, sym, ap, subst, ◌⊎◌, inl, inr, Bool, true, false, ◌&&◌, Option, none,
  some, List, [], ◌∷◌, Text, text_eq_iff, Unicode, if◌then◌else◌, is_some, or_else, select_one,
  select_all, Bool-cases, Option-cases, All, arith, Memᴰ, select_one-Mem, select_one_total,
  select_all-Mem, Mem-select_all,
}
use automatizacion_wh.Shipping.Policy.{CarrierPolicy, FallbackPolicy, allow, block, is_block}
use automatizacion_wh.Shipping.Selection.{
  CarrierQuote, PolicyInput, normalize_policy, total, sort_quotes, is_eligible_carrier_quote,
  is_carrier, normalized_rule, configured_quote, first_alternative, or_cheapest, alternative,
  recommend, select_recommended_carrier,
}
use Sorting.{sort_quotes-IsCheapest, sort_quotes_total}

-- The carrier is that of a listed quote.
abbrev IsOffered : List CarrierQuote → Text → Type 0
IsOffered qs c = (q : CarrierQuote) × Memᴰ q qs × (q.carrier ≡ c)

IsOffered-some :
    (qs : List CarrierQuote) (q : CarrierQuote) (c : Text)
    → Memᴰ q qs
    → some q.carrier ≡ some c
    → IsOffered qs c
IsOffered-some qs q c m e = (q, m, ground arith)

or_cheapest-IsOffered :
    (o : Option CarrierQuote) (qs : List CarrierQuote) (c : Text)
    → ((q : CarrierQuote) → o ≡ some q → Memᴰ q qs)
    → or_cheapest o qs ≡ some c
    → IsOffered qs c
unfolding sort_quotes
or_cheapest-IsOffered (some q) qs c found e = IsOffered-some qs q c (found q refl) e
or_cheapest-IsOffered none [] c found e = cc
or_cheapest-IsOffered none (q ∷ qs) c found e =
    let (h, rest, sorted, cheapest) = sort_quotes-IsCheapest q qs in
    IsOffered-some (q ∷ qs) h c cheapest.0 (cc (sorted))

module _ (u : Unicode) where
  first_alternative-Mem :
      (cs : List Text) (qs : List CarrierQuote) {q : CarrierQuote}
      → first_alternative u cs qs ≡ some q
      → Memᴰ q qs
  unfolding first_alternative
  first_alternative-Mem [] qs e = cc
  first_alternative-Mem (c ∷ cs) qs {q} e = elim (Option-cases (select_one (is_carrier u c) qs)) [
    | inl missed ↦ first_alternative-Mem cs qs (rw (missed, first_alternative) at e)
    | inr (r, found) ↦
        subst (λ x. Memᴰ x qs) (ground arith) (select_one-Mem (is_carrier u c) qs found).0
  ]

  configured_quote-Mem :
      (r : Option Text) (qs : List CarrierQuote) {q : CarrierQuote}
      → configured_quote u r qs ≡ some q
      → Memᴰ q qs
  unfolding configured_quote
  configured_quote-Mem none qs f = cc
  configured_quote-Mem (some r) qs f = (select_one-Mem (is_carrier u r) qs f).0

  alternative-IsOffered :
      (p : CarrierPolicy) (qs : List CarrierQuote) (c : Text)
      → alternative u p qs ≡ some c
      → IsOffered qs c
  unfolding alternative
  alternative-IsOffered p qs c e =
      or_cheapest-IsOffered (first_alternative u (or_else p.ordered_carriers []) qs) qs c
        (λ q. first_alternative-Mem (or_else p.ordered_carriers []) qs) (ground arith)

  recommend-IsOffered :
      (p : CarrierPolicy) (qs : List CarrierQuote) (c : Text)
      → recommend u p qs ≡ some c
      → IsOffered qs c
  unfolding recommend
  recommend-IsOffered p qs c e = elim (Option-cases (configured_quote u (normalized_rule u p) qs)) [
    | inr (q, found) ↦
        IsOffered-some qs q c (configured_quote-Mem (normalized_rule u p) qs found) (ground arith)
    | inl missed ↦ alternative-IsOffered p qs c (ground arith)
  ]

-- The recommended carrier is that of a quote in the list that the policy makes eligible: one whose
-- carrier is allowed and not excluded and whose charges are finite and not negative.
pub select_recommended_carrier-IsEligible :
    (u : Unicode) (quotes : List CarrierQuote) (input : PolicyInput) (c : Text)
    → select_recommended_carrier u quotes input ≡ some c
    → (q : CarrierQuote) × Memᴰ q quotes
      × (is_eligible_carrier_quote u q (normalize_policy input) ≡ true)
      × (q.carrier ≡ c)
unfolding select_recommended_carrier
select_recommended_carrier-IsEligible u quotes input c e =
    let p = normalize_policy input in
    let (q, m, same) =
      recommend-IsOffered u p (select_all (λ q. is_eligible_carrier_quote u q p) quotes) c e in
    let (listed, eligible) = select_all-Mem (λ q. is_eligible_carrier_quote u q p) quotes m in
    (q, listed, eligible, same)

-- If the policy has a preferred carrier and an eligible quote in the list is that carrier's, then a
-- carrier is recommended, and in lower case it is the preferred one (trimmed, in lower case).
pub select_recommended_carrier_preferred :
    (u : Unicode) (quotes : List CarrierQuote) (input : PolicyInput) (r : Text) {q : CarrierQuote}
    → normalized_rule u (normalize_policy input) ≡ some r
    → Memᴰ q quotes
    → is_eligible_carrier_quote u q (normalize_policy input) ≡ true
    → u.to_lower_case q.carrier ≡ r
    → (c : Text) × (select_recommended_carrier u quotes input ≡ some c) × (u.to_lower_case c ≡ r)
unfolding select_recommended_carrier recommend configured_quote
select_recommended_carrier_preferred u quotes input r {q} wanted m eligible same =
    let p = normalize_policy input in
    let test = λ (x : CarrierQuote). is_eligible_carrier_quote u x p in
    let (b, found) =
      select_one_total (is_carrier u r) (select_all test quotes)
        (Mem-select_all test quotes m eligible) ((text_eq_iff _ _).1 same) in
    (
      b.carrier,
      ground arith,
      (text_eq_iff _ _).0 (select_one-Mem (is_carrier u r) (select_all test quotes) found).1,
    )

-- If the policy has a preferred carrier, blocks the fallback, and no eligible quote is the preferred
-- carrier's, then no carrier is recommended.
pub select_recommended_carrier_blocked :
    (u : Unicode) (quotes : List CarrierQuote) (input : PolicyInput) (r : Text)
    → normalized_rule u (normalize_policy input) ≡ some r
    → (normalize_policy input).fallback_policy ≡ block
    → ((q : CarrierQuote)
        → Memᴰ q quotes
        → is_eligible_carrier_quote u q (normalize_policy input) ≡ true
        → u.to_lower_case q.carrier ≢ r)
    → select_recommended_carrier u quotes input ≡ none
unfolding select_recommended_carrier recommend configured_quote alternative
select_recommended_carrier_blocked u quotes input r wanted blocks others =
    let p = normalize_policy input in
    let test = λ (x : CarrierQuote). is_eligible_carrier_quote u x p in
    elim (Option-cases (select_one (is_carrier u r) (select_all test quotes))) [
      | inl missed ↦ ground arith
      | inr (q, found) ↦
          let (m, hit) = select_one-Mem (is_carrier u r) (select_all test quotes) found in
          let (listed, eligible) = select_all-Mem test quotes m in
          absurd (others q listed eligible ((text_eq_iff _ _).0 hit))
    ]

-- With no preferred carrier and no ordered carriers, if some quote of the list is eligible, then the
-- recommended carrier is that of an eligible quote of the list whose total is at most that of every
-- eligible quote.
pub select_recommended_carrier_cheapest :
    (u : Unicode) (quotes : List CarrierQuote) (input : PolicyInput) {q : CarrierQuote}
    → (normalize_policy input).preferred_carrier ≡ none
    → (normalize_policy input).ordered_carriers ≡ none
    → Memᴰ q quotes
    → is_eligible_carrier_quote u q (normalize_policy input) ≡ true
    → (h : CarrierQuote) × (select_recommended_carrier u quotes input ≡ some h.carrier)
      × Memᴰ h quotes
      × (is_eligible_carrier_quote u h (normalize_policy input) ≡ true)
      × All
          (λ r. total h ≤ total r)
          (select_all (λ r. is_eligible_carrier_quote u r (normalize_policy input)) quotes)
unfolding select_recommended_carrier recommend configured_quote alternative normalized_rule
    first_alternative
select_recommended_carrier_cheapest u quotes input {q} no_rule no_order m eligible =
    let p = normalize_policy input in
    let test = λ (x : CarrierQuote). is_eligible_carrier_quote u x p in
    let (h, rest, sorted, (found, least)) =
      sort_quotes_total (select_all test quotes) (Mem-select_all test quotes m eligible) in
    let (listed, good) = select_all-Mem test quotes found in (h, ground arith, listed, good, least)
