-- ===== src/Order/Transition/Moves.antt =====
-- The branches `cancel`, `dispatch` and `return` of `transition`, and `releaseReservation`, in
-- apps/api/src/modules/orders/postgres-order-repository.ts.
use automatizacion_wh.Common.{
  ℕ, ◌+◌, ◌-◌, Bool, true, false, ◌&&◌, some, ◌∷◌, codes, Result, ok, guard, or_throw,
  order_conflict, ◌>>=◌, ◌>>◌, leb, ◌==◌, select_one, update_where, pos, neg_ℕ,
}
use automatizacion_wh.Database.{Db}
use automatizacion_wh.Database.Orders.{Order, OrderStatus}
use automatizacion_wh.Database.Stock.{
  StockRow, ReservationReason, cancelled, dispatched, order_dispatched, order_returned,
}
use automatizacion_wh.Database.Guides.{GuideJobStatus, pending, failed, created}
use automatizacion_wh.Order.Rows.{is_stock, set_status}

-- The update that takes the order's units out of the reserved ones, with its movement.
unfoldable pub release_units : Db → Order → StockRow → ReservationReason → Db
release_units db order stock reason = record db {
  stock =
      update_where (is_stock order.reference_id order.size)
        (λ s. record s { reserved_quantity = stock.reserved_quantity - order.quantity }) db.stock;
  reservation_movements =
      record {
        order_id = order.id;
        reference_id = order.reference_id;
        size = order.size;
        previous_reserved_quantity = stock.reserved_quantity;
        new_reserved_quantity = stock.reserved_quantity - order.quantity;
        delta = neg_ℕ order.quantity;
        reason = reason;
      }
      ∷ db.reservation_movements;
}

unfoldable pub release_reservation : Db → Order → ReservationReason → Result Db
unfolding release_units
release_reservation db order reason = do
  stock ←
      or_throw (select_one (is_stock order.reference_id order.size) db.stock)
        (order_conflict "reservation_missing")
  guard (leb order.quantity stock.reserved_quantity) (order_conflict "reservation_missing")
  ok (release_units db order stock reason)

abbrev pub is_pending : GuideJobStatus → Bool
is_pending pending = true
is_pending _ = false

abbrev pub is_created : GuideJobStatus → Bool
is_created created = true
is_created _ = false

-- A guide job that no worker has claimed fails with the order.
unfoldable pub fail_pending_job : Db → ℕ → Db
fail_pending_job db order_id = record db {
  guide_jobs =
      update_where (λ j. j.order_id == order_id && is_pending j.status)
        (λ j. record j { status = failed; error_code = some (codes "order_cancelled") })
        db.guide_jobs;
}

-- `cancel` of a confirmed order.
unfoldable pub cancel_confirmed : Db → Order → OrderStatus → Result Db
unfolding fail_pending_job set_status
cancel_confirmed db order next = do
  db₁ ← release_reservation db order cancelled
  ok (set_status (fail_pending_job db₁ order.id) order.id next)

-- The update of both quantities by `dispatch`, with its two movements.
unfoldable pub ship_units : Db → Order → StockRow → Db
ship_units db order stock = record db {
  stock =
      update_where (is_stock order.reference_id order.size)
        (λ s. record s {
          physical_quantity = stock.physical_quantity - order.quantity;
          reserved_quantity = stock.reserved_quantity - order.quantity;
        })
        db.stock;
  reservation_movements =
      record {
        order_id = order.id;
        reference_id = order.reference_id;
        size = order.size;
        previous_reserved_quantity = stock.reserved_quantity;
        new_reserved_quantity = stock.reserved_quantity - order.quantity;
        delta = neg_ℕ order.quantity;
        reason = dispatched;
      }
      ∷ db.reservation_movements;
  inventory_movements =
      record {
        reference_id = order.reference_id;
        size = order.size;
        previous_quantity = stock.physical_quantity;
        new_quantity = stock.physical_quantity - order.quantity;
        delta = neg_ℕ order.quantity;
        reason = order_dispatched;
      }
      ∷ db.inventory_movements;
}

unfoldable pub dispatch_order : Db → Order → OrderStatus → Result Db
unfolding ship_units set_status
dispatch_order db order next = do
  guide ←
      or_throw (select_one (λ j. j.order_id == order.id && is_created j.status) db.guide_jobs)
        (order_conflict "shipping_guide_required")
  stock ←
      or_throw (select_one (is_stock order.reference_id order.size) db.stock)
        (order_conflict "reservation_missing")
  guard (leb order.quantity stock.reserved_quantity && leb order.quantity stock.physical_quantity)
      (order_conflict "reservation_missing")
  ok (set_status (ship_units db order stock) order.id next)

-- The update of the physical units by `return`, with its movement.
unfoldable pub restock_units : Db → Order → StockRow → Db
restock_units db order stock = record db {
  stock =
      update_where (is_stock order.reference_id order.size)
        (λ s. record s { physical_quantity = stock.physical_quantity + order.quantity }) db.stock;
  inventory_movements =
      record {
        reference_id = order.reference_id;
        size = order.size;
        previous_quantity = stock.physical_quantity;
        new_quantity = stock.physical_quantity + order.quantity;
        delta = pos order.quantity;
        reason = order_returned;
      }
      ∷ db.inventory_movements;
}

unfoldable pub return_order : Db → Order → OrderStatus → Result Db
unfolding restock_units set_status
return_order db order next = do
  stock ←
      or_throw (select_one (is_stock order.reference_id order.size) db.stock)
        (order_conflict "stock_missing")
  ok (set_status (restock_units db order stock) order.id next)
