-- ===== src/Database/Stock.antt =====
-- apps/api/src/database/schema/catalog.ts and the reservation movements of schema/orders.ts.
use automatizacion_wh.Common.{ℕ, Bool, Text, ℤ}

pub record Reference : Type 0 where
  pub id : ℕ
  pub code : Text
  pub model_name : Text
  pub color : Text
  pub price_cop : ℕ
  pub active : Bool

-- `catalog_stock`: the primary key is the reference and the size (in tenths).
pub record StockRow : Type 0 where
  pub reference_id : ℕ
  pub size : ℕ
  pub physical_quantity : ℕ
  pub reserved_quantity : ℕ

pub data ReservationReason : Type 0 where
  confirmed cancelled dispatched : ReservationReason

pub record ReservationMovement : Type 0 where
  pub order_id : ℕ
  pub reference_id : ℕ
  pub size : ℕ
  pub previous_reserved_quantity : ℕ
  pub new_reserved_quantity : ℕ
  pub delta : ℤ
  pub reason : ReservationReason

pub data InventoryReason : Type 0 where
  initial manual_adjustment order_dispatched order_returned : InventoryReason

-- `note` is left out.
pub record InventoryMovement : Type 0 where
  pub reference_id : ℕ
  pub size : ℕ
  pub previous_quantity : ℕ
  pub new_quantity : ℕ
  pub delta : ℤ
  pub reason : InventoryReason
