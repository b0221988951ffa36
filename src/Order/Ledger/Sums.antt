-- ===== src/Order/Ledger/Sums.antt =====
-- How the sums over the stock move when one row is written.
use automatizacion_wh.Common.{
  ℕ, ◌+◌, ◌≡◌, ap, ◌&&◌, some, List, ◌==◌, if◌then◌else◌, select_one, select_one_sound, sum_of,
  sum_of-update_where, AtMostOne, AtMostOne-update_where, arith,
}
use automatizacion_wh.Database.Orders.{Order, OrderStatus}
use automatizacion_wh.Database.Stock.{StockRow}
use automatizacion_wh.Order.Rows.{is_stock}
use automatizacion_wh.Order.Ledger.{reserved_at, physical_at}
use automatizacion_wh.Order.Ledger.Effect.{StockWrite}

-- The row that a select by primary key finds has that key.
pub stock_key :
    (r z : ℕ) (rows : List StockRow) {s : StockRow}
    → select_one (is_stock r z) rows ≡ some s
    → (s.reference_id ≡ r) × (s.size ≡ z)
stock_key r z rows {s} e =
    let t = select_one_sound (is_stock r z) rows e in (ground arith, ground arith)

module _ {order : Order} {next : OrderStatus} {old new : List StockRow}
    (w : StockWrite order next old new) where
  pub unique_stock_kept : (r z : ℕ) → AtMostOne (is_stock r z) old → AtMostOne (is_stock r z) new
  unique_stock_kept r z u = rw w.written (
      AtMostOne-update_where (is_stock r z) (is_stock order.reference_id order.size) w.write old
        (λ s. rw (w.same_reference s, w.same_size s)) u)

  pub reserved_sum :
      (r z : ℕ)
      → AtMostOne (is_stock order.reference_id order.size) old
      → sum_of (reserved_at r z) new
          + (if order.reference_id == r && order.size == z then w.row.reserved_quantity else 0)
        ≡ sum_of (reserved_at r z) old
          + (if order.reference_id == r && order.size == z
              then (w.write w.row).reserved_quantity
              else 0)
  reserved_sum r z u =
      let key = stock_key order.reference_id order.size old w.found in
      let s =
        sum_of-update_where (reserved_at r z) (is_stock order.reference_id order.size) w.write old u
          w.found in
      let e = ap (sum_of (reserved_at r z)) w.written in
      ground (arith, s, e, key.0, key.1, w.same_reference w.row, w.same_size w.row)

  pub physical_sum :
      (r z : ℕ)
      → AtMostOne (is_stock order.reference_id order.size) old
      → sum_of (physical_at r z) new
          + (if order.reference_id == r && order.size == z then w.row.physical_quantity else 0)
        ≡ sum_of (physical_at r z) old
          + (if order.reference_id == r && order.size == z
              then (w.write w.row).physical_quantity
              else 0)
  physical_sum r z u =
      let key = stock_key order.reference_id order.size old w.found in
      let s =
        sum_of-update_where (physical_at r z) (is_stock order.reference_id order.size) w.write old u
          w.found in
      let e = ap (sum_of (physical_at r z)) w.written in
      ground (arith, s, e, key.0, key.1, w.same_reference w.row, w.same_size w.row)
