-- ===== src/Database.antt =====
-- The tables of apps/api/src/database/schema that the modelled operations read or write. A row is a
-- record, a table a list of rows; UUIDs and times (milliseconds) are numbers. Columns that nothing
-- modelled reads (`createdAt` and `updatedAt` of most tables) are left out, and so are the keys of
-- rows that are only appended.
pub mod Orders
pub mod Stock
pub mod Guides
use automatizacion_wh.Common.{ℕ, Bool, Option, List, Text}
use Orders.{Order, Summary, Confirmation, StatusEvent}
use Stock.{Reference, StockRow, ReservationMovement, InventoryMovement}
use Guides.{ShippingQuote, GuideJob}

-- `owner_alerts`; the deduplication key is made of the type and the entity.
pub record OwnerAlert : Type 0 where
  pub alert_type : Text
  pub entity_id : ℕ
  pub is_open : Bool
  pub retry_safe : Bool

pub record Customer : Type 0 where
  pub id : ℕ
  pub display_name : Option Text
  pub normalized_phone : Option Text
  pub needs_review : Bool

pub record Locality : Type 0 where
  pub carrier_code : Text
  pub department : Text
  pub locality : Text
  pub active : Bool

pub record Db : Type 0 where
  pub customers : List Customer
  pub localities : List Locality
  pub orders : List Order
  pub summaries : List Summary
  pub confirmations : List Confirmation
  pub status_events : List StatusEvent
  pub references : List Reference
  pub stock : List StockRow
  pub reservation_movements : List ReservationMovement
  pub inventory_movements : List InventoryMovement
  pub quotes : List ShippingQuote
  pub guide_jobs : List GuideJob
  pub owner_alerts : List OwnerAlert
