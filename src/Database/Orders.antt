-- ===== src/Database/Orders.antt =====
-- apps/api/src/database/schema/orders.ts: the orders, their summaries, confirmations and events.
use automatizacion_wh.Common.{ℕ, Bool, Option, Text}
use automatizacion_wh.Shipping.Policy.{InsuranceMode}

pub data OrderStatus : Type 0 where
  draft confirmed cancelled dispatched delivered returned : OrderStatus

-- `size` is numeric(4, 1), counted in tenths.
pub record Order : Type 0 where
  pub id : ℕ
  pub order_number : ℕ
  pub status : OrderStatus
  pub reference_id : ℕ
  pub size : ℕ
  pub quantity : ℕ
  pub customer_name : Option Text
  pub customer_phone : Option Text
  pub customer_id : Option ℕ
  pub address : Option Text
  pub locality_carrier_code : Option Text
  pub locality_department : Option Text
  pub locality_name : Option Text
  pub delivery_notes : Option Text
  pub draft_version : ℕ
  pub latest_summary_version : ℕ
  pub confirmed_summary_version : Option ℕ

-- `snapshot.shippingQuote`.
pub record SnapshotQuote : Type 0 where
  pub id : ℕ
  pub carrier : Text
  pub service_id : ℕ
  pub freight_cop : ℕ
  pub cash_on_delivery_cop : ℕ
  pub surcharge_cop : ℕ
  pub insurance_mode : InsuranceMode
  pub insurance_cop : ℕ
  pub estimated_days : Text
  pub expires_at : ℕ

-- The JSON snapshot of a summary, its objects `reference`, `customer` and `destination` flattened.
-- The order number is kept as the number that `PED-000000` prints.
pub record Snapshot : Type 0 where
  pub version : ℕ
  pub draft_version : ℕ
  pub order_number : ℕ
  pub reference_id : ℕ
  pub reference_code : Text
  pub reference_model_name : Text
  pub reference_color : Text
  pub size : ℕ
  pub quantity : ℕ
  pub unit_price_cop : ℕ
  pub product_subtotal_cop : ℕ
  pub shipping_cost_cop : Option ℕ
  pub shipping_pending : Bool
  pub total_cop : ℕ
  pub shipping_quote : Option SnapshotQuote
  pub customer_name : Option Text
  pub customer_phone : Option Text
  pub address : Option Text
  pub locality_carrier_code : Option Text
  pub department : Option Text
  pub locality : Option Text
  pub delivery_notes : Option Text

pub record Summary : Type 0 where
  pub order_id : ℕ
  pub version : ℕ
  pub draft_version : ℕ
  pub snapshot : Snapshot

pub record Confirmation : Type 0 where
  pub order_id : ℕ
  pub summary_version : ℕ
  pub idempotency_key : Text

pub record StatusEvent : Type 0 where
  pub order_id : ℕ
  pub previous_status : Option OrderStatus
  pub next_status : OrderStatus
  pub admin_user_id : Option ℕ
