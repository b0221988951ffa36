-- ===== src/Order/Ledger/Effect.antt =====
-- What one transition does to the order and to its stock row, and why that keeps the books.
use automatizacion_wh.Common.{
  ℕ, ◌+◌, ◌≤◌, ◌≡◌, refl, ap, ◌⊎◌, ◌&&◌, some, List, ◌==◌, if◌then◌else◌, select_one, update_where,
  sum_of, sum_of-update_where, AtMostOne, AtMostOne-update_where, arith,
}
use automatizacion_wh.Database.Orders.{Order, OrderStatus}
use automatizacion_wh.Database.Stock.{StockRow}
use automatizacion_wh.Order.Rows.{is_order, is_stock}
use automatizacion_wh.Order.Ledger.{held, out, held_at, out_at}

-- The order's row is written: its status becomes `next`, its item stays.
pub record OrderWrite (order : Order) (next : OrderStatus) (old new : List Order) : Type 0 where
  pub write : Order → Order
  pub same_id : (o : Order) → (write o).id ≡ o.id
  pub same_reference : (write order).reference_id ≡ order.reference_id
  pub same_size : (write order).size ≡ order.size
  pub same_quantity : (write order).quantity ≡ order.quantity
  pub status : (write order).status ≡ next
  pub found : select_one (is_order order.id) old ≡ some order
  pub written : new ≡ update_where (is_order order.id) write old

-- The stock row of the order's item is written, in step with the order.
pub record StockWrite (order : Order) (next : OrderStatus) (old new : List StockRow) : Type 0 where
  pub write : StockRow → StockRow
  pub same_reference : (s : StockRow) → (write s).reference_id ≡ s.reference_id
  pub same_size : (s : StockRow) → (write s).size ≡ s.size
  pub row : StockRow
  pub found : select_one (is_stock order.reference_id order.size) old ≡ some row
  pub written : new ≡ update_where (is_stock order.reference_id order.size) write old
  pub bounded :
      row.reserved_quantity ≤ row.physical_quantity
      → (write row).reserved_quantity ≤ (write row).physical_quantity
  pub reserved :
      (write row).reserved_quantity + held order.status order.quantity
      ≡ row.reserved_quantity + held next order.quantity
  pub physical :
      (write row).physical_quantity + out next order.quantity
      ≡ row.physical_quantity + out order.status order.quantity

-- Or no stock row is written, and the order holds and has out what it did.
pub record StockKept (order : Order) (next : OrderStatus) (old new : List StockRow) : Type 0 where
  pub kept : new ≡ old
  pub held_same : held next order.quantity ≡ held order.status order.quantity
  pub out_same : out next order.quantity ≡ out order.status order.quantity

abbrev pub StockEffect : Order → OrderStatus → List StockRow → List StockRow → Type 0
StockEffect order next old new = StockWrite order next old new ⊎ StockKept order next old new

module _ {order : Order} {next : OrderStatus} {old new : List Order}
    (w : OrderWrite order next old new) where
  pub unique_orders_kept :
      (order_id : ℕ) → AtMostOne (is_order order_id) old → AtMostOne (is_order order_id) new
  unique_orders_kept order_id u = rw w.written (
      AtMostOne-update_where (is_order order_id) (is_order order.id) w.write old
        (λ o. rw (w.same_id o)) u)

  pub held_sum :
      (r z : ℕ)
      → AtMostOne (is_order order.id) old
      → sum_of (held_at r z) new + held_at r z order
        ≡ sum_of (held_at r z) old
          + (if order.reference_id == r && order.size == z then held next order.quantity else 0)
  held_sum r z u =
      let s = sum_of-update_where (held_at r z) (is_order order.id) w.write old u w.found in
      let e : sum_of (held_at r z) new
          ≡ sum_of (held_at r z) (update_where (is_order order.id) w.write old) =
        ap (sum_of (held_at r z)) w.written in
      let q : held_at r z (w.write order)
          ≡ (if order.reference_id == r && order.size == z then held next order.quantity else 0) =
        rw (w.same_reference, w.same_size, w.same_quantity, w.status) refl in
      omega (arith, s, e, q)

  pub out_sum :
      (r z : ℕ)
      → AtMostOne (is_order order.id) old
      → sum_of (out_at r z) new + out_at r z order
        ≡ sum_of (out_at r z) old
          + (if order.reference_id == r && order.size == z then out next order.quantity else 0)
  out_sum r z u =
      let s = sum_of-update_where (out_at r z) (is_order order.id) w.write old u w.found in
      let e : sum_of (out_at r z) new
          ≡ sum_of (out_at r z) (update_where (is_order order.id) w.write old) =
        ap (sum_of (out_at r z)) w.written in
      let q : out_at r z (w.write order)
          ≡ (if order.reference_id == r && order.size == z then out next order.quantity else 0) =
        rw (w.same_reference, w.same_size, w.same_quantity, w.status) refl in
      omega (arith, s, e, q)
