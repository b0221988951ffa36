-- ===== src/Order/Transition/Confirm.antt =====
-- The branch `confirm` of `transition` in
-- apps/api/src/modules/orders/postgres-order-repository.ts.
use automatizacion_wh.Common.{
  ℕ, ◌+◌, Bool, true, false, not, ◌&&◌, Option, none, some, ◌∷◌, Text, codes, text_eq, Unicode,
  Result, ok, guard, or_throw, order_conflict, failure, ◌>>=◌, ◌>>◌, ltb, leb, ◌==◌, if◌then◌else◌,
  is_number, select_one, update_where, exists_row, pos,
}
use automatizacion_wh.Database.{Db, OwnerAlert}
use automatizacion_wh.Database.Orders.{Order, OrderStatus, Summary, SnapshotQuote, Confirmation}
use automatizacion_wh.Database.Stock.{StockRow, confirmed}
use automatizacion_wh.Database.Guides.{ShippingQuote, GuideJob, pending}
use automatizacion_wh.Order.State.{OrderAction}
use automatizacion_wh.Order.Rows.{is_order, is_stock, complete_order, assert_selected_quote_policy}

pub record TransitionInput : Type 0 where
  pub order_id : ℕ
  pub action : OrderAction
  pub admin_user_id : Option ℕ
  pub summary_version : Option ℕ
  pub idempotency_key : Option Text

-- What the database server and the clock supply: the time, the random keys of a new row and of a new
-- customer, and the next number of the sequence of orders.
pub record Env : Type 0 where
  pub now : ℕ
  pub new_id : ℕ
  pub new_customer_id : ℕ
  pub new_order_number : ℕ

-- A missing version or key equals no column.
abbrev pub is_summary : ℕ → Option ℕ → Summary → Bool
is_summary order_id version s = s.order_id == order_id && is_number version s.version

abbrev pub is_confirmed_quote : Order → SnapshotQuote → ShippingQuote → Bool
is_confirmed_quote order snapshot q =
    q.id == snapshot.id
    && q.order_id == order.id
    && q.draft_version == order.draft_version
    && q.selected

abbrev pub has_key : Option Text → Confirmation → Bool
has_key none c = false
has_key (some key) c = text_eq c.idempotency_key key

-- A confirmation found under the key must be this order's. Without one a row is inserted, which the
-- table's unique constraint on the order may refuse.
unfoldable pub record_confirmation : Db → Order → Summary → Option Text → Result Db
record_confirmation db order summary key = elim (select_one (has_key key) db.confirmations) [
  | some confirmation ↦ do
    guard (confirmation.order_id == order.id) (order_conflict "idempotency_key_conflict")
    ok db
  | none ↦ do
    k ← or_throw key (failure "order_confirmations_idempotency_key_not_null")
    guard (not (exists_row (λ c. c.order_id == order.id) db.confirmations))
        (failure "order_confirmations_order_unique")
    ok (record db {
      confirmations =
          record { order_id = order.id; summary_version = summary.version; idempotency_key = k }
          ∷ db.confirmations;
    })
]

-- The update of the stock and the movement that records it.
unfoldable pub reserve_stock : Db → Order → StockRow → Db
reserve_stock db order stock = record db {
  stock =
      update_where (is_stock order.reference_id order.size)
        (λ s. record s { reserved_quantity = stock.reserved_quantity + order.quantity }) db.stock;
  reservation_movements =
      record {
        order_id = order.id;
        reference_id = order.reference_id;
        size = order.size;
        previous_reserved_quantity = stock.reserved_quantity;
        new_reserved_quantity = stock.reserved_quantity + order.quantity;
        delta = pos order.quantity;
        reason = confirmed;
      }
      ∷ db.reservation_movements;
}

-- `onConflictDoNothing({ target: shippingGuideJobs.orderId })`.
unfoldable pub enqueue_guide_job : Env → Db → Order → Summary → ShippingQuote → Db
enqueue_guide_job env db order summary quote =
    if exists_row (λ j. j.order_id == order.id) db.guide_jobs
    then db
    else record db { guide_jobs = job ∷ db.guide_jobs }
  where
    job : GuideJob
    job = record {
      id = env.new_id;
      order_id = order.id;
      quote_id = some quote.id;
      status = pending;
      carrier = quote.carrier;
      insurance_mode = quote.insurance_mode;
      pre_shipment_number = none;
      freight_cop = none;
      error_code = none;
      policy_snapshot = quote.policy_snapshot;
      confirmed_total_cop = some summary.snapshot.total_cop;
      guide_pdf_storage_key = none;
      guide_pdf_retired = false;
      created_at = env.now;
    }

abbrev is_open_alert : ℕ → OwnerAlert → Bool
is_open_alert order_id a =
    a.is_open && text_eq a.alert_type (codes "order_confirmed") && a.entity_id == order_id

-- An open alert with the same deduplication key makes the insert do nothing.
unfoldable pub open_confirmed_alert : Db → Order → Db
open_confirmed_alert db order =
    if exists_row (is_open_alert order.id) db.owner_alerts then db else record db {
      owner_alerts =
          record {
            alert_type = codes "order_confirmed";
            entity_id = order.id;
            is_open = true;
            retry_safe = false;
          }
          ∷ db.owner_alerts;
    }

-- The row's status and the version of the summary that was confirmed.
unfoldable pub set_confirmed : Db → Order → OrderStatus → Summary → Db
set_confirmed db order next summary = record db {
  orders =
      update_where (is_order order.id)
        (λ o. record o { status = next; confirmed_summary_version = some summary.version })
        db.orders;
}

-- The summary and the selected quote that the confirmation is about.
unfoldable pub confirmed_summary :
    Env → Unicode → Db → Order → TransitionInput → Result (Summary × ShippingQuote)
confirmed_summary env u db order input = do
  complete_order order
  summary ←
      or_throw (select_one (is_summary order.id input.summary_version) db.summaries)
        (order_conflict "stale_summary")
  guard (summary.draft_version == order.draft_version) (order_conflict "stale_summary")
  snapshot ← or_throw summary.snapshot.shipping_quote (order_conflict "shipping_quote_required")
  quote ←
      or_throw (select_one (is_confirmed_quote order snapshot) db.quotes)
        (order_conflict "shipping_quote_stale")
  guard (ltb env.now quote.expires_at) (order_conflict "shipping_quote_expired")
  assert_selected_quote_policy u quote
  ok (summary, quote)

-- `physicalQuantity - reservedQuantity < quantity` is written without the difference, which may be
-- negative in JavaScript.
unfoldable pub available_stock : Db → Order → Result StockRow
available_stock db order = do
  stock ←
      or_throw (select_one (is_stock order.reference_id order.size) db.stock)
        (order_conflict "insufficient_stock")
  guard (leb (stock.reserved_quantity + order.quantity) stock.physical_quantity)
      (order_conflict "insufficient_stock")
  ok stock

unfoldable pub confirm_order :
    Env → Unicode → Db → Order → OrderStatus → TransitionInput → Result Db
confirm_order env u db order next input = do
  (summary, quote) ← confirmed_summary env u db order input
  stock ← available_stock db order
  db₁ ← record_confirmation db order summary input.idempotency_key
  let db₂ = reserve_stock db₁ order stock
  let db₃ = set_confirmed db₂ order next summary
  let db₄ = enqueue_guide_job env db₃ order summary quote
  ok (open_confirmed_alert db₄ order)
