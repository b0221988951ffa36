-- ===== src/Order/Service.antt =====
-- apps/api/src/modules/orders/order-service.ts. The service reads the order first and calls the
-- repository afterwards: `seen` is the database as the service reads it, `observed` as the
-- repository's first statement does, `db` as its transaction finds it under the locks, and other
-- requests may have run in between.
use automatizacion_wh.Common.{
  ℕ, ◌&&◌, Option, none, some, Unicode, Result, ok, guard, or_throw, order_conflict,
  order_validation, order_not_found, catalog_not_found, ◌>>=◌, ◌>>◌, if◌then◌else◌, is_some,
  select_one,
}
use automatizacion_wh.Database.{Db}
use automatizacion_wh.Database.Orders.{Order, Summary}
use automatizacion_wh.Order.State.{assert_transition}
use automatizacion_wh.Order.Rows.{OrderRecord, is_reference, is_order}
use automatizacion_wh.Order.Edit.{CreateInput, PatchInput, create}
use automatizacion_wh.Order.Patch.{update}
use automatizacion_wh.Order.Summaries.{is_draft, create_summary}
use automatizacion_wh.Order.Transition.Confirm.{Env, TransitionInput}
use automatizacion_wh.Order.Transition.{is_confirm, is_confirmed, transition}

-- `find` of the repository: the row joined with its reference.
unfoldable pub find : Db → ℕ → Option Order
find db order_id = elim (select_one (is_order order_id) db.orders) [
  | none ↦ none
  | some o ↦
      if is_some (select_one (is_reference o.reference_id) db.references) then some o else none
]

unfoldable pub require_order : Db → ℕ → Result Order
require_order db order_id = or_throw (find db order_id) order_not_found

-- The service asks for four of the six columns that the repository asks for.
unfoldable pub assert_complete : Order → Result (Unit {0})
assert_complete o =
    guard
      (is_some o.customer_name
        && is_some o.customer_phone
        && is_some o.address
        && is_some o.locality_carrier_code)
      (order_validation "incomplete_order")

unfoldable pub service_create : Env → Unicode → Db → Db → CreateInput → Result (Db × OrderRecord)
service_create env u seen db input = do
  reference ←
      or_throw (select_one (is_reference input.reference_id) seen.references) catalog_not_found
  guard reference.active (order_conflict "reference_inactive")
  create env u db input

unfoldable pub service_update :
    Env → Unicode → Db → Db → Db → PatchInput → Result (Db × OrderRecord)
service_update env u seen observed db input = do
  order ← require_order seen input.order_id
  guard (is_draft order.status) (order_conflict "order_not_editable")
  update env u observed db input

unfoldable pub service_create_summary : Env → Unicode → Db → Db → Db → ℕ → Result (Db × Summary)
service_create_summary env u seen observed db order_id = do
  order ← require_order seen order_id
  guard (is_draft order.status) (order_conflict "summary_not_available")
  assert_complete order
  create_summary env u observed db order_id

-- The checks before the repository's `transition`.
unfoldable pub check_transition : Order → TransitionInput → Result (Unit {0})
check_transition order input =
    if is_confirm input.action && is_confirmed order.status
    then guard (is_some input.idempotency_key) (order_validation "confirmation_required")
    else (do
      next ← assert_transition order.status input.action
      if is_confirm input.action
          then (do
            guard (is_some input.summary_version && is_some input.idempotency_key)
                (order_validation "confirmation_required")
            assert_complete order)
          else ok tt)

unfoldable pub service_transition :
    Env → Unicode → Db → Db → TransitionInput → Result (Db × OrderRecord)
service_transition env u seen db input = do
  order ← require_order seen input.order_id
  check_transition order input
  transition env u db input
