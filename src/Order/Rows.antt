-- ===== src/Order/Rows.antt =====
-- What the methods of apps/api/src/modules/orders/postgres-order-repository.ts share: the tests of
-- their `where` clauses, the checks of a row, and the row mapped for the callers.
use automatizacion_wh.Common.{
  ℕ, Bool, ◌&&◌, some, Text, Unicode, Result, ok, guard, or_throw, order_conflict, order_validation,
  order_not_found, ◌>>=◌, ◌==◌, is_some, select_one, update_where, pos,
}
use automatizacion_wh.Database.{Db}
use automatizacion_wh.Database.Orders.{Order, OrderStatus}
use automatizacion_wh.Database.Stock.{Reference, StockRow}
use automatizacion_wh.Database.Guides.{ShippingQuote}
use automatizacion_wh.Shipping.Policy.{parse_policy}
use automatizacion_wh.Shipping.Selection.{CarrierQuote, cop, is_eligible_carrier_quote}
use automatizacion_wh.Order.Validation.{stored_size}

abbrev pub is_order : ℕ → Order → Bool
is_order order_id o = o.id == order_id

abbrev pub is_reference : ℕ → Reference → Bool
is_reference reference_id r = r.id == reference_id

-- `and(eq(referenceId), eq(size))`, the primary key of the stock.
abbrev pub is_stock : ℕ → ℕ → StockRow → Bool
is_stock reference_id size s = s.reference_id == reference_id && s.size == size

-- A test by cases, so that a guard on a row's nullable columns computes.
abbrev pub all_present : Order → Bool
all_present o =
    is_some o.customer_name
    && is_some o.customer_phone
    && is_some o.address
    && is_some o.locality_carrier_code
    && is_some o.locality_department
    && is_some o.locality_name

unfoldable pub complete_order : Order → Result (Unit {0})
complete_order o = guard (all_present o) (order_validation "incomplete_order")

-- A row of `shipping_quotes` as isEligibleCarrierQuote sees it.
abbrev pub selectable : ShippingQuote → CarrierQuote
selectable q = record {
  carrier = q.carrier;
  freight_cop = cop (pos q.freight_cop);
  cash_on_delivery_cop = cop (pos q.cash_on_delivery_cop);
  surcharge_cop = cop (pos q.surcharge_cop);
  insurance_cop = some (cop (pos q.insurance_cop));
}

unfoldable pub assert_selected_quote_policy : Unicode → ShippingQuote → Result (Unit {0})
assert_selected_quote_policy u quote = do
  policy ←
      or_throw (parse_policy quote.policy_snapshot)
        (order_conflict "shipping_quote_requires_requote")
  guard (is_eligible_carrier_quote u (selectable quote) policy.carriers)
      (order_conflict "shipping_quote_not_allowed")

-- OrderRecord: the columns of the row, those of its reference, and the size as it is printed.
pub record OrderRecord : Type 0 where
  pub row : Order
  pub reference_code : Text
  pub reference_model_name : Text
  pub reference_color : Text
  pub unit_price_cop : ℕ
  pub size : ℕ

unfoldable pub map_order : Order → Reference → Result OrderRecord
map_order row reference = do
  size ← stored_size row.size
  ok (record {
    row = row;
    reference_code = reference.code;
    reference_model_name = reference.model_name;
    reference_color = reference.color;
    unit_price_cop = reference.price_cop;
    size = size;
  })

unfoldable pub lock_order : Db → ℕ → Result Order
lock_order db order_id = or_throw (select_one (is_order order_id) db.orders) order_not_found

unfoldable pub require_mapped : Db → Order → Result OrderRecord
unfolding map_order
require_mapped db row = do
  reference ← or_throw (select_one (is_reference row.reference_id) db.references) order_not_found
  map_order row reference

-- `UPDATE sales_orders SET status = next WHERE id = order_id`.
unfoldable pub set_status : Db → ℕ → OrderStatus → Db
set_status db order_id next = record db {
  orders = update_where (is_order order_id) (λ o. record o { status = next }) db.orders;
}
