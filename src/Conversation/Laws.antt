-- ===== src/Conversation/Laws.antt =====
-- The diagram of the dialogue (apps/api/src/modules/conversations/conversation-state.ts and
-- configured-flow.ts).
use automatizacion_wh.Common.{
  ℕ, ◌≡◌, refl, Bool, true, ◌||◌, Option, none, some, Text, Unicode, trim, is_some, arith,
}
use automatizacion_wh.Conversation.State.{
  ConversationState, awaiting_size, showing_models, awaiting_name, awaiting_reuse_confirmation,
  awaiting_phone, awaiting_department, awaiting_locality, awaiting_address, awaiting_notes,
  awaiting_shipping, awaiting_confirmation, completed, Action, show_catalog, reset, human_takeover,
  more_models, select_reference, reuse_destination, capture_new_destination, collect_name,
  collect_phone, collect_department, collect_locality, collect_address, collect_notes,
  select_shipping, confirm_order, cancel_order, edit_address, edit_locality, edit_product,
  ConversationTransition,
}
use automatizacion_wh.Conversation.Messages.{normalize_message, parse_size}
use automatizacion_wh.Conversation.Advance.{
  on_size, on_reuse, on_name, on_phone, on_department, on_locality, on_address, on_notes,
  on_shipping, on_confirmation, on_models, in_state, answer, advance_conversation,
}

-- The state that an action leads to; `none` where the dialogue has no such edge.
abbrev pub next_state : ConversationState → Option Action → Option ConversationState
next_state s none = some s
next_state s (some human_takeover) = some s
next_state s (some reset) = some awaiting_size
next_state awaiting_size (some show_catalog) = some showing_models
next_state showing_models (some more_models) = some showing_models
next_state showing_models (some select_reference) = some showing_models
next_state awaiting_reuse_confirmation (some reuse_destination) = some awaiting_reuse_confirmation
next_state awaiting_reuse_confirmation (some capture_new_destination) = some awaiting_name
next_state awaiting_name (some collect_name) = some awaiting_phone
next_state awaiting_phone (some collect_phone) = some awaiting_department
next_state awaiting_department (some collect_department) = some awaiting_locality
next_state awaiting_locality (some collect_locality) = some awaiting_address
next_state awaiting_address (some collect_address) = some awaiting_notes
next_state awaiting_notes (some collect_notes) = some awaiting_confirmation
next_state awaiting_shipping (some select_shipping) = some awaiting_confirmation
next_state awaiting_confirmation (some edit_address) = some awaiting_address
next_state awaiting_confirmation (some edit_locality) = some awaiting_locality
next_state awaiting_confirmation (some edit_product) = some awaiting_size
next_state awaiting_confirmation (some confirm_order) = some completed
next_state awaiting_confirmation (some cancel_order) = some awaiting_size
next_state _ _ = none

abbrev pub Follows : ConversationState → ConversationTransition → Type 0
Follows s t = next_state s t.action ≡ some t.state

abbrev pub answers : ConversationTransition → Bool
answers t = is_some t.reply || is_some t.action

-- What holds of every turn: it follows the diagram, and does or says something.
abbrev pub Sound : ConversationState → ConversationTransition → Type 0
Sound s t = Follows s t × (answers t ≡ true)

size-Sound : (size : Option Text) (attempts : ℕ) → Sound awaiting_size (on_size size attempts)
unfolding on_size
size-Sound none attempts = (refl, refl)
size-Sound (some size) attempts = (refl, refl)

reuse-Sound : (m : Text) → Sound awaiting_reuse_confirmation (on_reuse m)
unfolding on_reuse
reuse-Sound m = ground arith

confirmation-Sound : (m : Text) → Sound awaiting_confirmation (on_confirmation m)
unfolding on_confirmation
confirmation-Sound m = ground arith

name-Sound : (v : Text) → Sound awaiting_name (on_name v)
unfolding on_name
name-Sound v = ground arith

phone-Sound : (v m : Text) → Sound awaiting_phone (on_phone v m)
unfolding on_phone
phone-Sound v m = ground arith

department-Sound : (v : Text) → Sound awaiting_department (on_department v)
unfolding on_department
department-Sound v = ground arith

locality-Sound : (v : Text) → Sound awaiting_locality (on_locality v)
unfolding on_locality
locality-Sound v = ground arith

address-Sound : (v : Text) → Sound awaiting_address (on_address v)
unfolding on_address
address-Sound v = ground arith

notes-Sound : (v m : Text) → Sound awaiting_notes (on_notes v m)
unfolding on_notes
notes-Sound v m = (refl, refl)

shipping-Sound : (v : Text) → Sound awaiting_shipping (on_shipping v)
unfolding on_shipping
shipping-Sound v = ground arith

models-Sound : (u : Unicode) (v m : Text) → Sound showing_models (on_models u v m)
unfolding on_models
models-Sound u v m = ground arith

in_state-Sound :
    (u : Unicode) (s : ConversationState) (message m : Text) (attempts : ℕ)
    → Sound s (in_state u s message m attempts)
unfolding in_state
in_state-Sound u awaiting_size message m attempts = size-Sound (parse_size u message) attempts
in_state-Sound u awaiting_reuse_confirmation message m attempts = reuse-Sound m
in_state-Sound u awaiting_name message m attempts = name-Sound (trim message)
in_state-Sound u awaiting_phone message m attempts = phone-Sound (trim message) m
in_state-Sound u awaiting_department message m attempts = department-Sound (trim message)
in_state-Sound u awaiting_locality message m attempts = locality-Sound (trim message)
in_state-Sound u awaiting_address message m attempts = address-Sound (trim message)
in_state-Sound u awaiting_notes message m attempts = notes-Sound (trim message) m
in_state-Sound u awaiting_shipping message m attempts = shipping-Sound (trim message)
in_state-Sound u awaiting_confirmation message m attempts = confirmation-Sound m
in_state-Sound u completed message m attempts = (refl, refl)
in_state-Sound u showing_models message m attempts = models-Sound u message m

answer-Sound :
    (u : Unicode) (s : ConversationState) (message m : Text) (attempts : ℕ)
    → Sound s (answer u s message m attempts)
unfolding answer
answer-Sound u s message m attempts = ground (arith, in_state-Sound u s message m attempts)

-- A turn in a state follows the diagram of the dialogue: its state is the one that its action leads
-- to, and without an action the state stays. And no turn is silent: it has a reply or an action.
pub advance_conversation-Sound :
    (u : Unicode) (s : ConversationState) (message : Text) (attempts : ℕ)
    → Sound s (advance_conversation u (some s) message attempts)
unfolding advance_conversation
advance_conversation-Sound u s message attempts =
    answer-Sound u s message (normalize_message u message) attempts
