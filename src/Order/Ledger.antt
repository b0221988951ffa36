-- ===== src/Order/Ledger.antt =====
-- The books of the stock: what the orders hold and have taken out, against the quantities of
-- `catalog_stock` (apps/api/src/database/schema/catalog.ts).
pub mod Effect
pub mod Sums
pub mod Branches
pub mod Laws
pub mod Transitions
pub mod Kept
use automatizacion_wh.Common.{
  ℕ, ◌+◌, ◌≤◌, ◌≡◌, Bool, ◌&&◌, ◌==◌, if◌then◌else◌, sum_of, All, AtMostOne,
}
use automatizacion_wh.Database.{Db}
use automatizacion_wh.Database.Orders.{
  Order, OrderStatus, draft, confirmed, cancelled, dispatched, delivered, returned,
}
use automatizacion_wh.Database.Stock.{StockRow}
use automatizacion_wh.Order.Rows.{is_order, is_stock}

-- A confirmed order holds its units in reserve.
abbrev pub held : OrderStatus → ℕ → ℕ
held confirmed q = q
held _ q = 0

-- A dispatched or delivered order has its units out of the shop.
abbrev pub out : OrderStatus → ℕ → ℕ
out dispatched q = q
out delivered q = q
out _ q = 0

abbrev pub is_of : ℕ → ℕ → Order → Bool
is_of reference_id size o = o.reference_id == reference_id && o.size == size

abbrev pub held_at : ℕ → ℕ → Order → ℕ
held_at r z o = if is_of r z o then held o.status o.quantity else 0

abbrev pub out_at : ℕ → ℕ → Order → ℕ
out_at r z o = if is_of r z o then out o.status o.quantity else 0

abbrev pub reserved_at : ℕ → ℕ → StockRow → ℕ
reserved_at r z s = if is_stock r z s then s.reserved_quantity else 0

abbrev pub physical_at : ℕ → ℕ → StockRow → ℕ
physical_at r z s = if is_stock r z s then s.physical_quantity else 0

-- The primary keys are unique, nothing is reserved beyond the physical units, and for each
-- reference and size the reserved units are those of the confirmed orders.
pub record IsConsistent (db : Db) : Type 0 where
  pub unique_orders : (order_id : ℕ) → AtMostOne (is_order order_id) db.orders
  pub unique_stock : (r z : ℕ) → AtMostOne (is_stock r z) db.stock
  pub bounded : All (λ s. s.reserved_quantity ≤ s.physical_quantity) db.stock
  pub balanced : (r z : ℕ) → sum_of (reserved_at r z) db.stock ≡ sum_of (held_at r z) db.orders

-- The units of a reference and size that exist: in the shop, or out with an order.
abbrev pub units : Db → ℕ → ℕ → ℕ
units db r z = sum_of (physical_at r z) db.stock + sum_of (out_at r z) db.orders
