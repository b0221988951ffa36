-- ===== src/Order/Transition.antt =====
-- `transition` of apps/api/src/modules/orders/postgres-order-repository.ts. It runs in one
-- transaction: an error leaves the database as it was, so the result carries the new database only
-- on success. The rows that it reads `for update` do not change before it ends.
pub mod Confirm
pub mod Moves
pub mod Laws
pub mod Dispatch
use automatizacion_wh.Common.{
  ℕ, Bool, true, false, ◌&&◌, Option, none, some, List, [], ◌∷◌, Text, text_eq, Unicode, Result, ok,
  err, guard, order_conflict, ◌>>=◌, ◌>>◌, ◌==◌, if◌then◌else◌, or_else, select_one,
}
use automatizacion_wh.Database.{Db}
use automatizacion_wh.Database.Orders.{
  Order, OrderStatus, draft, confirmed, cancelled, dispatched, delivered, returned, Confirmation,
}
use automatizacion_wh.Order.State.{
  OrderAction, confirm, cancel, dispatch, deliver, return, assert_transition,
}
use automatizacion_wh.Order.Rows.{OrderRecord, lock_order, require_mapped, set_status}
use Confirm.{Env, TransitionInput, confirm_order}
use Moves.{cancel_confirmed, dispatch_order, return_order}

abbrev pub is_confirm : OrderAction → Bool
is_confirm confirm = true
is_confirm _ = false

abbrev pub is_confirmed : OrderStatus → Bool
is_confirmed confirmed = true
is_confirmed _ = false

abbrev pub is_for_order : Option Confirmation → ℕ → Bool
is_for_order none order_id = false
is_for_order (some c) order_id = c.order_id == order_id

-- `confirm` of an order that is confirmed already: the key's own confirmation answers again.
unfoldable pub confirm_again : Db → Order → TransitionInput → Result (Db × OrderRecord)
confirm_again db order input = do
  guard
      (is_for_order
        (select_one (λ c. text_eq c.idempotency_key (or_else input.idempotency_key []))
          db.confirmations)
        order.id)
      (order_conflict "invalid_order_transition")
  mapped ← require_mapped db order
  ok (db, mapped)

-- The `if` chain on the action; the last branch is that of `deliver` and of `cancel` of a draft.
unfoldable pub apply_action :
    Env
    → Unicode
    → Db
    → Order
    → OrderStatus
    → TransitionInput
    → OrderAction
    → OrderStatus
    → Result Db
apply_action env u db order next input confirm status = confirm_order env u db order next input
apply_action env u db order next input cancel confirmed = cancel_confirmed db order next
apply_action env u db order next input dispatch status = dispatch_order db order next
apply_action env u db order next input return status = return_order db order next
apply_action env u db order next input _ _ = ok (set_status db order.id next)

unfoldable pub record_event : Db → Order → OrderStatus → Option ℕ → Db
record_event db order next admin_user_id = record db {
  status_events =
      record {
        order_id = order.id;
        previous_status = some order.status;
        next_status = next;
        admin_user_id = admin_user_id;
      }
      ∷ db.status_events;
}

-- What follows the row lock, for an order that is not confirmed again.
unfoldable pub apply_transition : Env → Unicode → Db → Order → TransitionInput → Result Db
apply_transition env u db order input = do
  next ← assert_transition order.status input.action
  db₁ ← apply_action env u db order next input input.action order.status
  ok (record_event db₁ order next input.admin_user_id)

-- The row is read again, and mapped for the caller.
unfoldable pub transition_locked :
    Env → Unicode → Db → Order → TransitionInput → Result (Db × OrderRecord)
transition_locked env u db order input = do
  db₁ ← apply_transition env u db order input
  updated ← lock_order db₁ order.id
  mapped ← require_mapped db₁ updated
  ok (db₁, mapped)

unfoldable pub transition : Env → Unicode → Db → TransitionInput → Result (Db × OrderRecord)
transition env u db input = do
  order ← lock_order db input.order_id
  if is_confirm input.action && is_confirmed order.status
      then confirm_again db order input
      else transition_locked env u db order input
