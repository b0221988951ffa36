-- ===== src/Outbox/State.antt =====
-- apps/api/src/modules/whatsapp/outbound-message-state.ts.
use automatizacion_wh.Common.{Option, none, some, Result, failure, or_throw}

pub data OutboundMessageStatus : Type 0 where
  pending processing sent failed cancelled : OutboundMessageStatus

pub data OutboundMessageAction : Type 0 where
  claim mark_sent mark_failed cancel : OutboundMessageAction

-- The table of transitions; `none` is a missing entry.
unfoldable pub outbound_transitions :
    OutboundMessageStatus → OutboundMessageAction → Option OutboundMessageStatus
outbound_transitions pending claim = some processing
outbound_transitions pending cancel = some cancelled
outbound_transitions processing mark_sent = some sent
outbound_transitions processing mark_failed = some failed
outbound_transitions processing cancel = some cancelled
outbound_transitions _ _ = none

unfoldable pub assert_outbound_message_transition :
    OutboundMessageStatus → OutboundMessageAction → Result OutboundMessageStatus
unfolding outbound_transitions
assert_outbound_message_transition current action =
    or_throw (outbound_transitions current action) (failure "outbound_message_transition")
