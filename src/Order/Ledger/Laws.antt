-- ===== src/Order/Ledger/Laws.antt =====
-- A write of an order, with the write of its stock row that goes with it, keeps the books.
use automatizacion_wh.Common.{
  ℕ, ◌≤◌, ◌≡◌, ap, inl, inr, sum_of, All-select_one, All-update_where_one, arith,
}
use automatizacion_wh.Database.{Db}
use automatizacion_wh.Database.Orders.{Order, OrderStatus}
use automatizacion_wh.Order.Rows.{is_stock}
use automatizacion_wh.Order.Ledger.{held_at, reserved_at, physical_at, IsConsistent, units}
use automatizacion_wh.Order.Ledger.Effect.{
  OrderWrite, StockWrite, StockKept, StockEffect, unique_orders_kept, held_sum, out_sum,
}
use automatizacion_wh.Order.Ledger.Sums.{unique_stock_kept, reserved_sum, physical_sum}

module _ (db db' : Db) {order : Order} {next : OrderStatus}
    (w : OrderWrite order next db.orders db'.orders) (c : IsConsistent db) where
  balanced_write :
      StockWrite order next db.stock db'.stock
      → (r z : ℕ) → sum_of (reserved_at r z) db'.stock ≡ sum_of (held_at r z) db'.orders
  balanced_write v r z = ground (
    arith,
    c.balanced r z,
    held_sum w r z (c.unique_orders order.id),
    reserved_sum v r z (c.unique_stock order.reference_id order.size),
    v.reserved,
  )

  balanced_kept :
      StockKept order next db.stock db'.stock
      → (r z : ℕ) → sum_of (reserved_at r z) db'.stock ≡ sum_of (held_at r z) db'.orders
  balanced_kept v r z =
      let e = ap (sum_of (reserved_at r z)) v.kept in
      ground (arith, e, c.balanced r z, held_sum w r z (c.unique_orders order.id), v.held_same)

  pub effect-IsConsistent : StockEffect order next db.stock db'.stock → IsConsistent db'
  effect-IsConsistent (inl v) = record {
    unique_orders = λ order_id. unique_orders_kept w order_id (c.unique_orders order_id);
    unique_stock = λ r z. unique_stock_kept v r z (c.unique_stock r z);
    bounded =
        let row =
          All-select_one (λ s. s.reserved_quantity ≤ s.physical_quantity)
            (is_stock order.reference_id order.size) db.stock c.bounded v.found in
        rw v.written (
          All-update_where_one (λ s. s.reserved_quantity ≤ s.physical_quantity)
            (is_stock order.reference_id order.size) v.write db.stock
            (c.unique_stock order.reference_id order.size) v.found (v.bounded row.0) c.bounded);
    balanced = balanced_write v;
  }
  effect-IsConsistent (inr v) = record {
    unique_orders = λ order_id. unique_orders_kept w order_id (c.unique_orders order_id);
    unique_stock = rw v.kept c.unique_stock;
    bounded = rw v.kept c.bounded;
    balanced = balanced_kept v;
  }

  pub effect-units :
      StockEffect order next db.stock db'.stock → (r z : ℕ) → units db' r z ≡ units db r z
  effect-units (inl v) r z = ground (
    arith,
    out_sum w r z (c.unique_orders order.id),
    physical_sum v r z (c.unique_stock order.reference_id order.size),
    v.physical,
  )
  effect-units (inr v) r z =
      let e = ap (sum_of (physical_at r z)) v.kept in
      ground (arith, e, out_sum w r z (c.unique_orders order.id), v.out_same)
