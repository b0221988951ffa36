-- ===== src/Order/Summaries/Shown.antt =====
-- What the customer is shown (`createSummary` of apps/api/src/modules/orders/postgres-order-repository.ts).
use automatizacion_wh.Common.{
  ℕ, ◌+◌, ◌*◌, ◌<◌, ◌≡◌, refl, ap, subst, ◌∙◌, true, false, not, ◌&&◌, ◌==◌, exists_row, Option,
  none, some, ◌∷◌, Unicode, ok, guard, guard-eq-ok, or_throw, or_throw-eq-ok, order_conflict,
  order_not_found, failure, >>=-eq-ok, ok-injective, ltb, ==_iff, select_one_sound, select_one,
  select_all, update_where, select_one-update_where, arith,
}
use automatizacion_wh.Database.{Db}
use automatizacion_wh.Database.Orders.{Order, draft, Snapshot, Summary}
use automatizacion_wh.Database.Stock.{Reference}
use automatizacion_wh.Database.Guides.{ShippingQuote}
use automatizacion_wh.Shipping.Policy.{ShippingPolicy, parse_policy}
use automatizacion_wh.Shipping.Selection.{is_eligible_carrier_quote}
use automatizacion_wh.Order.Validation.{stored_size}
use automatizacion_wh.Order.Rows.{
  is_order, is_reference, all_present, complete_order, selectable, assert_selected_quote_policy,
  lock_order,
}
use automatizacion_wh.Order.Transition.Confirm.{Env}
use automatizacion_wh.Order.Drafts.{
  SameContact, other_orders, same_identity-SameContact, is_draft-eq, update_where-other_orders,
}
use automatizacion_wh.Order.Summaries.{
  is_reachable, is_selected_quote, check_quote, build_snapshot, shipping_cost, summary_of,
  summarize, store_summary, create_summary,
}
use automatizacion_wh.Order.Summaries.Laws.{create_summary_lem}

-- What the snapshot charges: without a selected quote the goods alone; with one, which is not over and is
-- allowed by the policy that it was quoted under, the goods and all that the quote costs.
abbrev pub Charges : Env → Unicode → Order → Reference → Option ShippingQuote → Snapshot → Type 0
Charges env u order reference none snapshot =
    (snapshot.shipping_pending ≡ true) × (snapshot.total_cop ≡ reference.price_cop * order.quantity)
Charges env u order reference (some q) snapshot =
    (snapshot.shipping_pending ≡ false)
    × (snapshot.total_cop
        ≡ reference.price_cop * order.quantity
          + (q.freight_cop + q.cash_on_delivery_cop + q.surcharge_cop + q.insurance_cop))
    × (env.now < q.expires_at)
    × (policy : ShippingPolicy) × (parse_policy q.policy_snapshot ≡ some policy)
    × (is_eligible_carrier_quote u (selectable q) policy.carriers ≡ true)

check_quote-Charges :
    (env : Env) (u : Unicode) (order : Order) (reference : Reference) (size : ℕ)
    (quote : Option ShippingQuote) {done : Unit {0}}
    → check_quote env u quote ≡ ok done
    → Charges env u order reference quote (build_snapshot order reference size quote)
unfolding check_quote build_snapshot shipping_cost assert_selected_quote_policy
check_quote-Charges env u order reference size none e = (refl, omega arith)
check_quote-Charges env u order reference size (some q) e =
    let (a, fresh, e₁) = >>=-eq-ok (guard _ (order_conflict "shipping_quote_expired")) _ e in
    let (policy, parsed, e₂) = >>=-eq-ok (or_throw (parse_policy q.policy_snapshot) _) _ e₁ in
    (
      refl,
      refl,
      in_time (guard-eq-ok _ _ fresh),
      policy,
      or_throw-eq-ok _ _ parsed,
      guard-eq-ok _ _ e₂,
    )
  where
    in_time : ltb env.now q.expires_at ≡ true → env.now < q.expires_at
    in_time e = ground arith

-- What the transaction has read and checked.
abbrev pub Summarized : Env → Unicode → Db → Db → ℕ → Order → Snapshot → Type 0
Summarized env u seen db order_id order snapshot =
    (select_one (is_order order_id) db.orders ≡ some order)
    × (order.status ≡ draft)
    × SameContact (select_one (is_order order_id) seen.orders) order
    × (is_reachable db order.customer_id ≡ true)
    × (all_present order ≡ true)
    × (reference : Reference) × (select_one (is_reference order.reference_id) db.references
        ≡ some reference)
    × Charges env u order reference (select_one (is_selected_quote order) db.quotes) snapshot
    × (snapshot.version ≡ order.latest_summary_version + 1)
    × (snapshot.draft_version ≡ order.draft_version)

summarize-Summarized :
    (env : Env) (u : Unicode) (seen db : Db) (order_id : ℕ) {order : Order} {snapshot : Snapshot}
    → summarize env u seen db order_id ≡ ok (order, snapshot)
    → Summarized env u seen db order_id order snapshot
unfolding summarize lock_order complete_order build_snapshot
summarize-Summarized env u seen db order_id {order} {snapshot} e =
    let (o, found, e₁) = >>=-eq-ok (or_throw (select_one (is_order order_id) db.orders) _) _ e in
    let (a, same, e₂) = >>=-eq-ok (guard _ (order_conflict "customer_identity_mismatch")) _ e₁ in
    let (b, reachable, e₃) =
      >>=-eq-ok (guard _ (order_conflict "customer_identity_mismatch")) _ e₂ in
    let (c, drafted, e₄) = >>=-eq-ok (guard _ (order_conflict "summary_not_available")) _ e₃ in
    let (d, complete, e₅) = >>=-eq-ok (guard _ _) _ e₄ in
    let (reference, referred, e₆) =
      >>=-eq-ok (or_throw (select_one (is_reference o.reference_id) db.references) order_not_found)
        _ e₅ in
    let (f, checked, e₇) =
      >>=-eq-ok (check_quote env u (select_one (is_selected_quote o) db.quotes)) _ e₆ in
    let (size, sized, e₈) = >>=-eq-ok (stored_size o.size) _ e₇ in
    let both = ok-injective e₈ in
    subst (λ x. Summarized env u seen db order_id x.0 x.1) both
      (
        or_throw-eq-ok _ _ found,
        is_draft-eq o.status (guard-eq-ok _ _ drafted),
        same_identity-SameContact _ o (guard-eq-ok _ _ same),
        guard-eq-ok _ _ reachable,
        guard-eq-ok _ _ complete,
        reference,
        or_throw-eq-ok _ _ referred,
        check_quote-Charges env u o reference size (select_one (is_selected_quote o) db.quotes)
            checked,
        refl,
        refl,
      )

-- What is written: the summary before the earlier ones, and its version in the order's row alone.
abbrev pub Shown : Env → Unicode → Db → Db → ℕ → Order → Db × Summary → Type 0
Shown env u seen db order_id o r =
    Summarized env u seen db order_id o r.1.snapshot
    × (r.1.order_id ≡ order_id)
    × (r.1.version ≡ o.latest_summary_version + 1)
    × (r.1.draft_version ≡ o.draft_version)
    × (r.0.summaries ≡ r.1 ∷ db.summaries)
    × (select_one (is_order order_id) r.0.orders
        ≡ some (record o { latest_summary_version = o.latest_summary_version + 1 }))
    × (other_orders order_id r.0 ≡ other_orders order_id db)

store_summary-Shown :
    (env : Env) (u : Unicode) (seen db : Db) (order_id : ℕ) (o : Order) (snapshot : Snapshot)
    {r : Db × Summary}
    → Summarized env u seen db order_id o snapshot
    → o.id ≡ order_id
    → snapshot.version ≡ o.latest_summary_version + 1
    → store_summary db o snapshot ≡ ok r
    → Shown env u seen db order_id o r
unfolding store_summary
store_summary-Shown env u seen db order_id o snapshot {r} held own next e =
    let write : Order → Order = λ x. record x { latest_summary_version = snapshot.version } in
    let written : Db × Summary = (
      record db {
        summaries = summary_of o snapshot ∷ db.summaries;
        orders = update_where (is_order o.id) write db.orders;
      },
      summary_of o snapshot,
    ) in
    let used = exists_row (λ s. s.order_id == o.id && s.version == snapshot.version) db.summaries in
    let (fresh, e₁, e₂) =
      >>=-eq-ok (guard (not used) (failure "order_summaries_order_version_unique"))
        (λ done. ok written) e in
    subst (Shown env u seen db order_id o) {x = written} (ok-injective e₂) (
      held,
      own,
      next,
      refl,
      refl,
      ap (λ n. select_one (is_order order_id) (update_where (is_order n) write db.orders)) own
          ∙ select_one-update_where (is_order order_id) write db.orders (λ b h. h) held.0
          ∙ ap (λ v. some (record o { latest_summary_version = v })) next,
      ap
            (λ n.
              select_all (λ x. not (is_order order_id x))
                (update_where (is_order n) write db.orders))
            own
          ∙ update_where-other_orders order_id (is_order order_id) write db.orders (λ b h. h)
              (λ b. refl),
    )

-- A summary that is made shows what holds: it is one of a draft that is complete, which has the customer
-- and the phone that it was read with before; its total is the price of the goods and, with a selected
-- quote of the draft's version, all that the quote costs, which is not over and is allowed by the policy
-- that it was quoted under. It is the next version, of the version of the draft, it is stored before the
-- earlier ones, the order is as before but for its latest summary, and every other order is as it was.
pub create_summary_shows :
    (env : Env) (u : Unicode) (seen db : Db) (order_id : ℕ) {r : Db × Summary}
    → create_summary env u seen db order_id ≡ ok r
    → (o : Order) × Shown env u seen db order_id o r
create_summary_shows env u seen db order_id {r} e =
    let (o, snapshot, e₁, e₂) = create_summary_lem env u seen db order_id e in
    let held = summarize-Summarized env u seen db order_id e₁ in
    let (
      found, drafted, contact, reachable, complete, reference, referred, charged, next, version,
    ) =
      held in
    (
      o,
      store_summary-Shown env u seen db order_id o snapshot held
          ((==_iff o.id order_id).0 (select_one_sound (is_order order_id) db.orders found)) next e₂,
    )
