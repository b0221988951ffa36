-- ===== src/Shipping/Quotes.antt =====
-- `selectQuote` of apps/api/src/modules/shipping/postgres-shipping-quote-repository.ts: the carrier that
-- a draft is sent with is chosen among its quotes.
use automatizacion_wh.Common.{
  ℕ, ◌≡◌, refl, sym, subst, ◌∙◌, inl, inr, Bool, true, false, ◌&&◌, some, List, [], ◌∷◌, Unicode,
  Result, ok, shipping_domain, or_throw, or_throw-eq-ok, guard, guard-eq-ok, ok-injective, ◌>>=◌,
  >>=-eq-ok, ltb, ◌==◌, Bool-cases, select_one, update_where, All,
}
use automatizacion_wh.Database.{Db}
use automatizacion_wh.Database.Orders.{Order}
use automatizacion_wh.Database.Guides.{ShippingQuote}
use automatizacion_wh.Shipping.Policy.{ShippingPolicy, parse_policy}
use automatizacion_wh.Shipping.Selection.{is_eligible_carrier_quote}
use automatizacion_wh.Order.Rows.{is_order, selectable}
use automatizacion_wh.Order.Summaries.{is_draft}

abbrev is_quote_of : ℕ → ℕ → ShippingQuote → Bool
is_quote_of order_id quote_id q = q.id == quote_id && q.order_id == order_id

-- The two updates: no quote of the order is selected, then the chosen one is.
unfoldable pub write_selection : Db → ℕ → ℕ → Db
write_selection db order_id quote_id = record db {
  quotes =
      update_where (λ q. q.id == quote_id) (λ q. record q { selected = true })
        (update_where (λ q. q.order_id == order_id) (λ q. record q { selected = false }) db.quotes);
}

-- What the row of the quote must satisfy beside the order, at the time of the choice.
unfoldable check_choice : Unicode → ℕ → Order → ShippingQuote → Result (Unit {0})
check_choice u now order quote = do
  current ←
      guard (is_draft order.status && quote.draft_version == order.draft_version)
        (shipping_domain "shipping_quote_stale")
  fresh ← guard (ltb now quote.expires_at) (shipping_domain "shipping_quote_expired")
  policy ←
      or_throw (parse_policy quote.policy_snapshot)
        (shipping_domain "shipping_quote_requires_requote")
  guard (is_eligible_carrier_quote u (selectable quote) policy.carriers)
      (shipping_domain "shipping_quote_not_allowed")

-- The rows that the method returns are those of the order afterwards, and are left out.
unfoldable pub select_quote : Unicode → ℕ → Db → ℕ → ℕ → Result Db
unfolding check_choice write_selection
select_quote u now db order_id quote_id = do
  order ←
      or_throw (select_one (is_order order_id) db.orders)
        (shipping_domain "shipping_quote_not_found")
  quote ←
      or_throw (select_one (is_quote_of order_id quote_id) db.quotes)
        (shipping_domain "shipping_quote_not_found")
  checked ← check_choice u now order quote
  ok (write_selection db order_id quote_id)

-- Of the order's quotes the chosen one is selected, and no other.
abbrev pub OnlySelected : ℕ → ℕ → List ShippingQuote → Type 0
OnlySelected order_id quote_id quotes =
    All (λ q. (q.order_id == order_id) ≡ true → q.selected ≡ (q.id == quote_id)) quotes

update-All :
    (P Q : ShippingQuote → Type 0) (p : ShippingQuote → Bool) (f : ShippingQuote → ShippingQuote)
    (quotes : List ShippingQuote)
    → ((q : ShippingQuote) → Q q → p q ≡ true → P (f q))
    → ((q : ShippingQuote) → Q q → p q ≡ false → P q)
    → All Q quotes
    → All P (update_where p f quotes)
unfolding update_where
update-All P Q p f [] hit miss all = tt
update-All P Q p f (q ∷ quotes) hit miss all = elim (Bool-cases (p q)) [
  | inl passes ↦ rw passes (hit q all.0 passes, update-All P Q p f quotes hit miss all.1)
  | inr fails ↦ rw fails (miss q all.0 fails, update-All P Q p f quotes hit miss all.1)
]

everywhere : (quotes : List ShippingQuote) → All (λ q. Unit {0}) quotes
everywhere [] = tt
everywhere (q ∷ quotes) = (tt, everywhere quotes)

clash : {b : Bool} → b ≡ false → b ≡ true → ⊥
clash h e = cc

selection-OnlySelected :
    (db : Db) (order_id quote_id : ℕ)
    → OnlySelected order_id quote_id (write_selection db order_id quote_id).quotes
unfolding write_selection
selection-OnlySelected db order_id quote_id =
    update-All (λ q. (q.order_id == order_id) ≡ true → q.selected ≡ (q.id == quote_id))
      (λ q. (q.order_id == order_id) ≡ true → q.selected ≡ false) (λ q. q.id == quote_id)
      (λ q. record q { selected = true })
      (update_where (λ q. q.order_id == order_id) (λ q. record q { selected = false }) db.quotes)
      (λ q cleared chosen of_order. sym chosen)
      (λ q cleared other of_order. cleared of_order ∙ sym other)
      (update-All (λ q. (q.order_id == order_id) ≡ true → q.selected ≡ false) (λ q. Unit)
        (λ q. q.order_id == order_id) (λ q. record q { selected = false }) db.quotes
        (λ q any of_it of_order. refl)
        (λ q any elsewhere of_order. absurd (clash elsewhere of_order)) (everywhere db.quotes))

-- The chosen quote is one of the order's, which is a draft of the same version, is not over, and its
-- carrier is allowed by the policy that it was quoted under.
abbrev pub Choosable : Unicode → ℕ → Db → ℕ → ℕ → Type 0
Choosable u now db order_id quote_id =
    (order : Order) × (quote : ShippingQuote) × (policy : ShippingPolicy) × (select_one
        (is_order order_id) db.orders
      ≡ some order)
    × (select_one (is_quote_of order_id quote_id) db.quotes ≡ some quote)
    × ((is_draft order.status && quote.draft_version == order.draft_version) ≡ true)
    × (ltb now quote.expires_at ≡ true)
    × (parse_policy quote.policy_snapshot ≡ some policy)
    × (is_eligible_carrier_quote u (selectable quote) policy.carriers ≡ true)

checked-parts :
    (u : Unicode) (now : ℕ) (order : Order) (quote : ShippingQuote) {done : Unit {0}}
    → check_choice u now order quote ≡ ok done
    → (policy : ShippingPolicy) × ((is_draft order.status
          && quote.draft_version == order.draft_version)
        ≡ true)
      × (ltb now quote.expires_at ≡ true)
      × (parse_policy quote.policy_snapshot ≡ some policy)
      × (is_eligible_carrier_quote u (selectable quote) policy.carriers ≡ true)
unfolding check_choice
checked-parts u now order quote e =
    let (a, current, e₁) = >>=-eq-ok (guard _ (shipping_domain "shipping_quote_stale")) _ e in
    let (b, fresh, e₂) = >>=-eq-ok (guard _ (shipping_domain "shipping_quote_expired")) _ e₁ in
    let (policy, parsed, e₃) = >>=-eq-ok (or_throw (parse_policy quote.policy_snapshot) _) _ e₂ in
    (
      policy,
      guard-eq-ok _ _ current,
      guard-eq-ok _ _ fresh,
      or_throw-eq-ok _ _ parsed,
      guard-eq-ok _ _ e₃,
    )

-- A choice that succeeds is one that may be made, and afterwards the chosen quote, and no other of the
-- order, is selected. The order must be a draft of the quote's version, the quote not over, and its
-- carrier allowed by the policy that it was quoted under.
pub select_quote-OnlySelected :
    (u : Unicode) (now : ℕ) (db db' : Db) (order_id quote_id : ℕ)
    → select_quote u now db order_id quote_id ≡ ok db'
    → Choosable u now db order_id quote_id × OnlySelected order_id quote_id db'.quotes
unfolding select_quote
select_quote-OnlySelected u now db db' order_id quote_id e =
    let (order, ordered, e₁) =
      >>=-eq-ok (or_throw (select_one (is_order order_id) db.orders) _) _ e in
    let (quote, quoted, e₂) =
      >>=-eq-ok (or_throw (select_one (is_quote_of order_id quote_id) db.quotes) _) _ e₁ in
    let (done, checked, e₃) = >>=-eq-ok (check_choice u now order quote) _ e₂ in
    let (policy, current, fresh, parsed, eligible) = checked-parts u now order quote checked in
    (
      (
        order,
        quote,
        policy,
        or_throw-eq-ok _ _ ordered,
        or_throw-eq-ok _ _ quoted,
        current,
        fresh,
        parsed,
        eligible,
      ),
      subst (λ d. OnlySelected order_id quote_id d.quotes) (ok-injective e₃)
          (selection-OnlySelected db order_id quote_id),
    )
