-- ===== src/Order/Ledger/Branches.antt =====
-- Each branch of `transition` writes the order's row, and its stock row in step with it.
use automatizacion_wh.Common.{
  ◌+◌, ◌-◌, ◌≤◌, ◌≡◌, refl, inl, ◌⊎◌, Option, some, List, Text, Unicode, ok, >>=-eq-ok, select_one,
  update_where, arith,
}
use automatizacion_wh.Database.{Db}
use automatizacion_wh.Database.Orders.{
  Order, OrderStatus, draft, confirmed, cancelled, dispatched, delivered, returned, Summary,
}
use automatizacion_wh.Database.Stock
use automatizacion_wh.Database.Stock.{StockRow, ReservationReason}
use automatizacion_wh.Database.Guides.{ShippingQuote}
use automatizacion_wh.Order.Rows.{is_order, is_stock, set_status}
use automatizacion_wh.Order.Transition.Confirm.{
  Env, TransitionInput, record_confirmation, reserve_stock, enqueue_guide_job, open_confirmed_alert,
  set_confirmed, confirmed_summary, available_stock, confirm_order,
}
use automatizacion_wh.Order.Transition.Moves.{
  release_units, release_reservation, cancel_confirmed, ship_units, dispatch_order, restock_units,
  return_order,
}
use automatizacion_wh.Order.Ledger.Effect.{OrderWrite, StockEffect}

-- A write of the books: the order's row, and the stock in step.
abbrev pub Writes : Db → Db → Order → OrderStatus → Type 0
Writes db db' order next =
    OrderWrite order next db.orders db'.orders × StockEffect order next db.stock db'.stock

record_confirmation_frame :
    (db : Db) (order : Order) (summary : Summary) (key : Option Text) {db' : Db}
    → record_confirmation db order summary key ≡ ok db'
    → (db'.orders ≡ db.orders) × (db'.stock ≡ db.stock)
unfolding record_confirmation
record_confirmation_frame db order summary key e = ground arith

enqueue_guide_job_frame :
    (env : Env) (db : Db) (order : Order) (summary : Summary) (quote : ShippingQuote)
    → ((enqueue_guide_job env db order summary quote).orders ≡ db.orders)
      × ((enqueue_guide_job env db order summary quote).stock ≡ db.stock)
unfolding enqueue_guide_job
enqueue_guide_job_frame env db order summary quote = ground arith

open_confirmed_alert_frame :
    (db : Db) (order : Order)
    → ((open_confirmed_alert db order).orders ≡ db.orders)
      × ((open_confirmed_alert db order).stock ≡ db.stock)
unfolding open_confirmed_alert
open_confirmed_alert_frame db order = ground arith

available_stock_lem :
    (db : Db) (order : Order) {s : StockRow}
    → available_stock db order ≡ ok s
    → (select_one (is_stock order.reference_id order.size) db.stock ≡ some s)
      × (s.reserved_quantity + order.quantity ≤ s.physical_quantity)
unfolding available_stock
available_stock_lem db order e = ground arith

pub confirm_order_parts :
    (env : Env) (u : Unicode) (db : Db) (order : Order) (next : OrderStatus)
    (input : TransitionInput) {db' : Db}
    → confirm_order env u db order next input ≡ ok db'
    → (summary : Summary) × (quote : ShippingQuote) × (stock : StockRow) × (db₁ : Db)
      × (available_stock db order ≡ ok stock)
      × (record_confirmation db order summary input.idempotency_key ≡ ok db₁)
      × (db'
          ≡ open_confirmed_alert
              (enqueue_guide_job env
                (set_confirmed (reserve_stock db₁ order stock) order next summary)
                order
                summary
                quote)
              order)
unfolding confirm_order
confirm_order_parts env u db order next input e =
    let (both, e₁, r₁) = >>=-eq-ok (confirmed_summary env u db order input) _ e in
    let (stock, e₂, r₂) = >>=-eq-ok (available_stock db order) _ r₁ in
    let (db₁, e₃, r₃) =
      >>=-eq-ok (record_confirmation db order both.0 input.idempotency_key) _ r₂ in
    (both.0, both.1, stock, db₁, e₂, e₃, cc r₃)

release_reservation_lem :
    (db : Db) (order : Order) (reason : ReservationReason) {db' : Db}
    → release_reservation db order reason ≡ ok db'
    → (s : StockRow) × (select_one (is_stock order.reference_id order.size) db.stock ≡ some s)
      × (order.quantity ≤ s.reserved_quantity)
      × (db' ≡ release_units db order s reason)
unfolding release_reservation
release_reservation_lem db order reason e = ground arith

dispatch_order_lem :
    (db : Db) (order : Order) (next : OrderStatus) {db' : Db}
    → dispatch_order db order next ≡ ok db'
    → (s : StockRow) × (select_one (is_stock order.reference_id order.size) db.stock ≡ some s)
      × (order.quantity ≤ s.reserved_quantity)
      × (order.quantity ≤ s.physical_quantity)
      × (db' ≡ set_status (ship_units db order s) order.id next)
unfolding dispatch_order
dispatch_order_lem db order next e = ground arith

return_order_lem :
    (db : Db) (order : Order) (next : OrderStatus) {db' : Db}
    → return_order db order next ≡ ok db'
    → (s : StockRow) × (select_one (is_stock order.reference_id order.size) db.stock ≡ some s)
      × (db' ≡ set_status (restock_units db order s) order.id next)
unfolding return_order
return_order_lem db order next e = ground arith

pub status_write :
    (order : Order) (next : OrderStatus) (old new : List Order)
    → select_one (is_order order.id) old ≡ some order
    → new ≡ update_where (is_order order.id) (λ o. record o { status = next }) old
    → OrderWrite order next old new
status_write order next old new found written = record {
  write = λ o. record o { status = next };
  same_id = λ o. refl;
  same_reference = refl;
  same_size = refl;
  same_quantity = refl;
  status = refl;
  found = found;
  written = written;
}

module _ (db : Db) (order : Order) {db' : Db}
    (found : select_one (is_order order.id) db.orders ≡ some order) where
  pub confirm_order-Writes :
      (env : Env) (u : Unicode) (input : TransitionInput)
      → order.status ≡ draft
      → confirm_order env u db order confirmed input ≡ ok db'
      → Writes db db' order confirmed
  unfolding reserve_stock set_confirmed
  confirm_order-Writes env u input s e =
      let (summary, quote, stock, db₁, e₂, e₃, r) =
        confirm_order_parts env u db order confirmed input e in
      let (here, room) = available_stock_lem db order e₂ in
      let frame = record_confirmation_frame db order summary input.idempotency_key e₃ in
      let db₃ = set_confirmed (reserve_stock db₁ order stock) order confirmed summary in
      let db₄ = enqueue_guide_job env db₃ order summary quote in
      let enqueued = enqueue_guide_job_frame env db₃ order summary quote in
      let alerted = open_confirmed_alert_frame db₄ order in
      (
        record {
          write = λ o. record o {
            status = confirmed;
            confirmed_summary_version = some summary.version;
          };
          same_id = λ o. refl;
          same_reference = refl;
          same_size = refl;
          same_quantity = refl;
          status = refl;
          found = found;
          written = rw (r, alerted.0, enqueued.0, frame.0);
        },
        inl (record {
          write = λ t. record t { reserved_quantity = stock.reserved_quantity + order.quantity };
          same_reference = λ t. refl;
          same_size = λ t. refl;
          row = stock;
          found = here;
          written = rw (r, alerted.1, enqueued.1, frame.1);
          bounded = λ b. room;
          reserved = ground arith;
          physical = ground arith;
        }),
      )

  pub cancel_confirmed-Writes :
      order.status ≡ confirmed
      → cancel_confirmed db order cancelled ≡ ok db'
      → Writes db db' order cancelled
  unfolding cancel_confirmed release_units
  cancel_confirmed-Writes s e =
      let (db₁, e₁, r₁) = >>=-eq-ok (release_reservation db order Stock.cancelled) _ e in
      let (stock, here, room, r) = release_reservation_lem db order Stock.cancelled e₁ in
      (
        status_write order cancelled db.orders db'.orders found (ground (arith, r₁, r)),
        inl (record {
          write = λ t. record t { reserved_quantity = stock.reserved_quantity - order.quantity };
          same_reference = λ t. refl;
          same_size = λ t. refl;
          row = stock;
          found = here;
          written = ground (arith, r₁, r);
          bounded = λ b. omega arith;
          reserved = ground arith;
          physical = ground arith;
        }),
      )

  pub dispatch_order-Writes :
      order.status ≡ confirmed
      → dispatch_order db order dispatched ≡ ok db'
      → Writes db db' order dispatched
  unfolding ship_units set_status
  dispatch_order-Writes s e =
      let (stock, here, reserved, physical, r) = dispatch_order_lem db order dispatched e in
      (
        status_write order dispatched db.orders db'.orders found (rw r),
        inl (record {
          write = λ t. record t {
            physical_quantity = stock.physical_quantity - order.quantity;
            reserved_quantity = stock.reserved_quantity - order.quantity;
          };
          same_reference = λ t. refl;
          same_size = λ t. refl;
          row = stock;
          found = here;
          written = rw r;
          bounded = λ b. omega arith;
          reserved = ground arith;
          physical = ground arith;
        }),
      )

  pub return_order-Writes :
      (order.status ≡ dispatched) ⊎ (order.status ≡ delivered)
      → return_order db order returned ≡ ok db'
      → Writes db db' order returned
  unfolding restock_units set_status
  return_order-Writes s e =
      let (stock, here, r) = return_order_lem db order returned e in
      (
        status_write order returned db.orders db'.orders found (rw r),
        inl (record {
          write = λ t. record t { physical_quantity = stock.physical_quantity + order.quantity };
          same_reference = λ t. refl;
          same_size = λ t. refl;
          row = stock;
          found = here;
          written = rw r;
          bounded = λ b. omega arith;
          reserved = ground arith;
          physical = ground arith;
        }),
      )
