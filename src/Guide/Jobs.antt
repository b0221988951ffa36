-- ===== src/Guide/Jobs.antt =====
-- apps/api/src/modules/shipping/postgres-shipping-guide-job-repository.ts. The columns of the PDF but
-- its storage key, and the times of updates, are left out.
use automatizacion_wh.Common.{
  ℕ, ◌+◌, ◌*◌, Bool, true, false, not, ◌&&◌, ◌||◌, Option, none, some, List, [], ◌∷◌, Text, codes,
  Result, ok, err, failure, ltb, ◌==◌, if◌then◌else◌, or_else, is_some, select_one, select_all,
  update_where, exists_row,
}
use automatizacion_wh.Database.{Db}
use automatizacion_wh.Database.Orders.{Order}
use automatizacion_wh.Database.Stock.{Reference}
use automatizacion_wh.Database.Guides.{
  ShippingQuote, GuideJob, GuideJobStatus, pending, processing, uncertain, failed,
}
use automatizacion_wh.Shipping.Policy.{InsuranceMode, no_insurance, PackageDefaults, ShippingPolicy}
use automatizacion_wh.Order.Rows.{is_order, is_reference}
use automatizacion_wh.Order.Transition.{is_confirmed}
use automatizacion_wh.Order.Transition.Moves.{is_pending}

-- `conversation_order_links`.
pub record ConversationLink : Type 0 where
  pub order_id : ℕ
  pub origin_conversation_id : ℕ

-- A row of `whatsapp_conversation_messages` of the type `event` that tells of a guide.
pub record GuideMessage : Type 0 where
  pub conversation_id : ℕ
  pub guide_job_id : ℕ
  pub guide_order_id : ℕ

-- The database with the two tables that only the guides use here.
pub record Desk : Type 0 where
  pub db : Db
  pub links : List ConversationLink
  pub messages : List GuideMessage

abbrev pub is_job : ℕ → GuideJob → Bool
is_job job_id j = j.id == job_id

abbrev pub is_processing : GuideJobStatus → Bool
is_processing processing = true
is_processing _ = false

abbrev pub is_uncertain : GuideJobStatus → Bool
is_uncertain uncertain = true
is_uncertain _ = false

abbrev pub is_failed : GuideJobStatus → Bool
is_failed failed = true
is_failed _ = false

-- `update(shippingGuideJobs).set(...).where(...)`.
unfoldable pub write_jobs : Desk → (GuideJob → Bool) → (GuideJob → GuideJob) → Desk
write_jobs desk test f = record desk {
  db = record desk.db { guide_jobs = update_where test f desk.db.guide_jobs };
}

-- A new row with the defaults of its columns.
abbrev pub default_job : ℕ → ℕ → ℕ → GuideJob
default_job new_id now order_id = record {
  id = new_id;
  order_id = order_id;
  quote_id = none;
  status = pending;
  carrier = codes "envia";
  insurance_mode = no_insurance;
  pre_shipment_number = none;
  freight_cop = none;
  error_code = none;
  policy_snapshot = none;
  confirmed_total_cop = none;
  guide_pdf_storage_key = none;
  guide_pdf_retired = false;
  created_at = now;
}

abbrev pub is_job_of : ℕ → GuideJob → Bool
is_job_of order_id j = j.order_id == order_id

-- The order's job, or a new one. The primary key refuses a random key that is taken.
unfoldable pub enqueue : ℕ → ℕ → Desk → ℕ → Result Desk
enqueue new_id now desk order_id =
    if exists_row (is_job_of order_id) desk.db.guide_jobs
    then ok desk
    else if exists_row (is_job new_id) desk.db.guide_jobs
    then err (failure "shipping_guide_jobs_pkey")
    else ok (record desk {
      db = record desk.db { guide_jobs = default_job new_id now order_id ∷ desk.db.guide_jobs };
    })

abbrev order_confirmed : Option Order → Bool
order_confirmed none = false
order_confirmed (some o) = is_confirmed o.status

abbrev reference_of : Db → Option Order → Option Reference
reference_of db none = none
reference_of db (some o) = select_one (is_reference o.reference_id) db.references

-- The two inner joins and the `WHERE` of the candidates. `locked` are the rows that `SKIP LOCKED`
-- passes over.
unfoldable pub is_candidate : (ℕ → Bool) → Db → GuideJob → Bool
is_candidate locked db j =
    let order = select_one (is_order j.order_id) db.orders in
    is_pending j.status
    && not (locked j.id)
    && order_confirmed order
    && is_some (reference_of db order)

-- `ORDER BY created_at, id`.
unfoldable pub is_before : GuideJob → GuideJob → Bool
is_before j k = ltb j.created_at k.created_at || (j.created_at == k.created_at && ltb j.id k.id)

abbrev pub earlier : GuideJob → Option GuideJob → GuideJob
earlier j none = j
earlier j (some k) = if is_before k j then k else j

unfoldable pub earliest : List GuideJob → Option GuideJob
earliest [] = none
earliest (j ∷ js) = some (earlier j (earliest js))

abbrev price_of : Option Reference → ℕ
price_of none = 0
price_of (some r) = r.price_cop

abbrev quantity_of : Option Order → ℕ
quantity_of none = 0
quantity_of (some o) = o.quantity

abbrev is_quote : Option ℕ → ShippingQuote → Bool
is_quote none q = false
is_quote (some quote_id) q = q.id == quote_id

-- The charges of the left join's row, 0 without one.
abbrev charges_of : Option ShippingQuote → ℕ
charges_of none = 0
charges_of (some q) = q.freight_cop + q.cash_on_delivery_cop + q.surcharge_cop + q.insurance_cop

unfoldable pub collection_value : Db → GuideJob → ℕ
collection_value db j =
    let order = select_one (is_order j.order_id) db.orders in
    or_else j.confirmed_total_cop (
      price_of (reference_of db order) * quantity_of order
      + charges_of (select_one (is_quote j.quote_id) db.quotes))

abbrev package_of : Option ShippingPolicy → Option PackageDefaults
package_of none = none
package_of (some p) = p.package_defaults

pub record ClaimedGuideJob : Type 0 where
  pub id : ℕ
  pub order_id : ℕ
  pub carrier : Text
  pub insurance_mode : InsuranceMode
  pub collection_value_cop : ℕ
  pub package_defaults : Option PackageDefaults

abbrev pub claimed_of : Db → GuideJob → ClaimedGuideJob
claimed_of db j = record {
  id = j.id;
  order_id = j.order_id;
  carrier = j.carrier;
  insurance_mode = j.insurance_mode;
  collection_value_cop = collection_value db j;
  package_defaults = package_of j.policy_snapshot;
}

-- The update of the candidate's row.
unfoldable pub claim_row : Desk → Option GuideJob → Desk × Option ClaimedGuideJob
unfolding write_jobs
claim_row desk none = (desk, none)
claim_row desk (some j) = (
  write_jobs desk (is_job j.id) (λ k. record k { status = processing }),
  some (claimed_of desk.db j),
)

unfoldable pub claim_next : (ℕ → Bool) → Desk → Desk × Option ClaimedGuideJob
claim_next locked desk =
    claim_row desk (earliest (select_all (is_candidate locked desk.db) desk.db.guide_jobs))
