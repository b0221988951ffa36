-- ===== src/Database/Guides.antt =====
-- apps/api/src/database/schema/shipping.ts: the quotes and the jobs that create shipping guides.
use automatizacion_wh.Common.{ℕ, Bool, Option, Text}
use automatizacion_wh.Shipping.Policy.{InsuranceMode, ShippingPolicy}

-- The amounts are integers that the table checks to be at least 0.
pub record ShippingQuote : Type 0 where
  pub id : ℕ
  pub order_id : ℕ
  pub draft_version : ℕ
  pub carrier : Text
  pub service_id : ℕ
  pub freight_cop : ℕ
  pub cash_on_delivery_cop : ℕ
  pub surcharge_cop : ℕ
  pub insurance_mode : InsuranceMode
  pub insurance_cop : ℕ
  pub policy_snapshot : Option ShippingPolicy
  pub estimated_days : Text
  pub expires_at : ℕ
  pub selected : Bool

pub data GuideJobStatus : Type 0 where
  pending processing created uncertain failed : GuideJobStatus

pub record GuideJob : Type 0 where
  pub id : ℕ
  pub order_id : ℕ
  pub quote_id : Option ℕ
  pub status : GuideJobStatus
  pub carrier : Text
  pub insurance_mode : InsuranceMode
  pub pre_shipment_number : Option Text
  pub freight_cop : Option ℕ
  pub error_code : Option Text
  pub policy_snapshot : Option ShippingPolicy
  pub confirmed_total_cop : Option ℕ
  pub guide_pdf_storage_key : Option Text
  pub guide_pdf_retired : Bool
  pub created_at : ℕ
