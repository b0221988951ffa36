-- ===== src/Conversation/State.antt =====
-- The types of apps/api/src/modules/conversations/conversation-state.ts.
use automatizacion_wh.Common.{ℕ, Bool, true, false, Option, none, some, Text, ◌==◌}

pub data ConversationState : Type 0 where
  awaiting_size showing_models awaiting_name awaiting_reuse_confirmation : ConversationState
  awaiting_phone awaiting_department awaiting_locality awaiting_address : ConversationState
  awaiting_notes awaiting_shipping awaiting_confirmation completed : ConversationState

pub data Action : Type 0 where
  show_catalog reset human_takeover more_models select_reference reuse_destination : Action
  capture_new_destination collect_name collect_phone collect_department collect_locality : Action
  collect_address collect_notes select_shipping confirm_order cancel_order : Action
  edit_address edit_locality edit_product : Action

-- `none` of the optional fields is a missing one; `selected_size` may also be there and null.
pub record ConversationTransition : Type 0 where
  pub state : ConversationState
  pub reply : Option Text
  pub selected_size : Option (Option Text)
  pub invalid_attempts : Option ℕ
  pub action : Option Action
  pub input : Option Text

-- `{ state, reply: text }`.
abbrev pub says : ConversationState → Text → ConversationTransition
says s text = record {
  state = s;
  reply = some text;
  selected_size = none;
  invalid_attempts = none;
  action = none;
  input = none;
}

-- `{ state, reply: null, action }`.
abbrev pub acts : ConversationState → Action → ConversationTransition
acts s a = record {
  state = s;
  reply = none;
  selected_size = none;
  invalid_attempts = none;
  action = some a;
  input = none;
}

abbrev pub state_number : ConversationState → ℕ
state_number awaiting_size = 0
state_number showing_models = 1
state_number awaiting_name = 2
state_number awaiting_reuse_confirmation = 3
state_number awaiting_phone = 4
state_number awaiting_department = 5
state_number awaiting_locality = 6
state_number awaiting_address = 7
state_number awaiting_notes = 8
state_number awaiting_shipping = 9
state_number awaiting_confirmation = 10
state_number completed = 11

-- `transition.state === state`, where the state may be null.
abbrev pub is_state : Option ConversationState → ConversationState → Bool
is_state none s = false
is_state (some r) s = state_number r == state_number s

abbrev pub is_edit_product : Option Action → Bool
is_edit_product (some edit_product) = true
is_edit_product _ = false

abbrev pub is_collect_address : Option Action → Bool
is_collect_address (some collect_address) = true
is_collect_address _ = false

abbrev pub is_collect_name : Option Action → Bool
is_collect_name (some collect_name) = true
is_collect_name _ = false

abbrev pub is_confirm_order : Option Action → Bool
is_confirm_order (some confirm_order) = true
is_confirm_order _ = false
