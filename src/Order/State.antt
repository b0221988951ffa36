-- ===== src/Order/State.antt =====
-- apps/api/src/modules/orders/order-state.ts.
use automatizacion_wh.Common.{Option, none, some, Result, order_conflict, or_throw}
use automatizacion_wh.Database.Orders.{
  OrderStatus, draft, confirmed, cancelled, dispatched, delivered, returned,
}

pub data OrderAction : Type 0 where
  confirm cancel dispatch deliver return : OrderAction

-- The table of transitions; `none` is a missing entry.
unfoldable pub transitions : OrderStatus → OrderAction → Option OrderStatus
transitions draft confirm = some confirmed
transitions draft cancel = some cancelled
transitions confirmed cancel = some cancelled
transitions confirmed dispatch = some dispatched
transitions dispatched deliver = some delivered
transitions dispatched return = some returned
transitions delivered return = some returned
transitions _ _ = none

unfoldable pub assert_transition : OrderStatus → OrderAction → Result OrderStatus
unfolding transitions
assert_transition current action =
    or_throw (transitions current action) (order_conflict "invalid_order_transition")
