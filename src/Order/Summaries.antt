-- ===== src/Order/Summaries.antt =====
-- `createSummary` of apps/api/src/modules/orders/postgres-order-repository.ts. `seen` is the order as
-- the first statement of the transaction reads it, before the advisory locks are taken; `db` is the
-- database once they are held.
pub mod Laws
pub mod Shown
use automatizacion_wh.Common.{
  ℕ, ◌+◌, ◌*◌, Bool, true, false, not, ◌&&◌, Option, none, some, List, ◌∷◌, Text, text_eq, Unicode,
  Result, ok, err, guard, or_throw, order_conflict, order_not_found, ◌>>=◌, ◌>>◌, ltb, ◌==◌,
  if◌then◌else◌, is_some, or_else, select_one, update_where, exists_row, failure, same_text,
  same_number,
}
use automatizacion_wh.Database.{Db, Customer}
use automatizacion_wh.Customer.Contact.{is_customer}
use automatizacion_wh.Database.Orders.{Order, OrderStatus, draft, Summary, Snapshot, SnapshotQuote}
use automatizacion_wh.Database.Stock.{Reference}
use automatizacion_wh.Database.Guides.{ShippingQuote}
use automatizacion_wh.Order.Validation.{stored_size}
use automatizacion_wh.Order.Rows.{
  is_order, is_reference, complete_order, assert_selected_quote_policy, lock_order,
}
use automatizacion_wh.Order.Transition.Confirm.{Env}

abbrev pub is_draft : OrderStatus → Bool
is_draft draft = true
is_draft _ = false

-- `observed === undefined || order.customerId !== observed.customerId || ...`, negated.
abbrev pub same_identity : Option Order → Order → Bool
same_identity none order = false
same_identity (some observed) order =
    same_number observed.customer_id order.customer_id
    && same_text observed.customer_phone order.customer_phone

abbrev profile_has_phone : Option Customer → Bool
profile_has_phone none = false
profile_has_phone (some c) = is_some c.normalized_phone

-- An order without a customer passes; a customer must still have a phone.
abbrev pub is_reachable : Db → Option ℕ → Bool
is_reachable db none = true
is_reachable db (some customer_id) =
    profile_has_phone (select_one (is_customer customer_id) db.customers)

abbrev pub is_selected_quote : Order → ShippingQuote → Bool
is_selected_quote order q =
    q.order_id == order.id && q.selected && q.draft_version == order.draft_version

-- The checks of the selected quote, if there is one.
unfoldable pub check_quote : Env → Unicode → Option ShippingQuote → Result (Unit {0})
check_quote env u none = ok tt
check_quote env u (some q) = do
  guard (ltb env.now q.expires_at) (order_conflict "shipping_quote_expired")
  assert_selected_quote_policy u q

unfoldable pub shipping_cost : Option ShippingQuote → Option ℕ
shipping_cost none = none
shipping_cost (some q) =
    some (q.freight_cop + q.cash_on_delivery_cop + q.surcharge_cop + q.insurance_cop)

unfoldable pub snapshot_quote : Option ShippingQuote → Option SnapshotQuote
snapshot_quote none = none
snapshot_quote (some q) = some (record {
  id = q.id;
  carrier = q.carrier;
  service_id = q.service_id;
  freight_cop = q.freight_cop;
  cash_on_delivery_cop = q.cash_on_delivery_cop;
  surcharge_cop = q.surcharge_cop;
  insurance_mode = q.insurance_mode;
  insurance_cop = q.insurance_cop;
  estimated_days = q.estimated_days;
  expires_at = q.expires_at;
})

unfoldable pub build_snapshot : Order → Reference → ℕ → Option ShippingQuote → Snapshot
unfolding shipping_cost snapshot_quote
build_snapshot order reference size quote = record {
  version = order.latest_summary_version + 1;
  draft_version = order.draft_version;
  order_number = order.order_number;
  reference_id = reference.id;
  reference_code = reference.code;
  reference_model_name = reference.model_name;
  reference_color = reference.color;
  size = size;
  quantity = order.quantity;
  unit_price_cop = reference.price_cop;
  product_subtotal_cop = reference.price_cop * order.quantity;
  shipping_cost_cop = shipping_cost quote;
  shipping_pending = not (is_some quote);
  total_cop = reference.price_cop * order.quantity + or_else (shipping_cost quote) 0;
  shipping_quote = snapshot_quote quote;
  customer_name = order.customer_name;
  customer_phone = order.customer_phone;
  address = order.address;
  locality_carrier_code = order.locality_carrier_code;
  department = order.locality_department;
  locality = order.locality_name;
  delivery_notes = order.delivery_notes;
}

abbrev pub summary_of : Order → Snapshot → Summary
summary_of order snapshot = record {
  order_id = order.id;
  version = snapshot.version;
  draft_version = order.draft_version;
  snapshot = snapshot;
}

-- The insert, which the unique constraint on the order and the version may refuse, and the update of
-- the order's latest version.
unfoldable pub store_summary : Db → Order → Snapshot → Result (Db × Summary)
store_summary db order snapshot = do
  guard
      (not (exists_row (λ s. s.order_id == order.id && s.version == snapshot.version) db.summaries))
      (failure "order_summaries_order_version_unique")
  let summary = summary_of order snapshot
  ok (
    record db {
      summaries = summary ∷ db.summaries;
      orders =
          update_where (is_order order.id)
            (λ o. record o { latest_summary_version = snapshot.version }) db.orders;
    },
    summary,
  )

-- What the transaction reads and checks before it writes: the order, and its snapshot.
unfoldable pub summarize : Env → Unicode → Db → Db → ℕ → Result (Order × Snapshot)
summarize env u seen db order_id = do
  order ← lock_order db order_id
  guard (same_identity (select_one (is_order order_id) seen.orders) order)
      (order_conflict "customer_identity_mismatch")
  guard (is_reachable db order.customer_id) (order_conflict "customer_identity_mismatch")
  guard (is_draft order.status) (order_conflict "summary_not_available")
  complete_order order
  reference ← or_throw (select_one (is_reference order.reference_id) db.references) order_not_found
  let quote = select_one (is_selected_quote order) db.quotes
  check_quote env u quote
  size ← stored_size order.size
  ok (order, build_snapshot order reference size quote)

unfoldable pub create_summary : Env → Unicode → Db → Db → ℕ → Result (Db × Summary)
create_summary env u seen db order_id = do
  (order, snapshot) ← summarize env u seen db order_id
  store_summary db order snapshot
