-- ===== src/Conversation/Patience.antt =====
-- The dialogue with the owner's texts (apps/api/src/modules/conversations/configured-flow.ts): its
-- diagram, and how long it bears with a customer whom it does not understand.
use automatizacion_wh.Common.{
  ℕ, ◌+◌, ◌≡◌, refl, ◌≢◌, Bool, true, false, not, ◌&&◌, Option, none, some, Text, Unicode,
  if◌then◌else◌, is_some, ◌==◌, ==_iff, arith,
}
use automatizacion_wh.Conversation.State.{
  ConversationState, awaiting_address, awaiting_confirmation, completed, Action, collect_address,
  human_takeover, ConversationTransition, state_number, is_state, is_collect_address,
  is_edit_product,
}
use automatizacion_wh.Conversation.Advance.{advance_conversation}
use automatizacion_wh.Conversation.Flow.{
  BotFlowDefinition, FlowStep, FlowStepKey, Variables, understood, is_invalid, is_completed,
  step_of, key_of, step_key, with_step, without_step, with_key, configured,
  advance_configured_conversation,
}
use automatizacion_wh.Conversation.Laws.{next_state, answers, Sound, advance_conversation-Sound}

abbrev past_notes : ConversationState → Option ConversationState
past_notes awaiting_address = some awaiting_confirmation
past_notes _ = none

-- The diagram, where the question for notes may be left out.
abbrev pub next_configured : Bool → ConversationState → Option Action → Option ConversationState
next_configured notes_asked s a =
    if is_collect_address a && not notes_asked then past_notes s else next_state s a

abbrev pub SoundFlow : Bool → ConversationState → ConversationTransition → Type 0
SoundFlow notes_asked s t =
    (next_configured notes_asked s t.action ≡ some t.state) × (answers t ≡ true)

is_state-eq : (s r : ConversationState) → is_state (some s) r ≡ true → s ≡ r
is_state-eq s r e = ground arith

is_state_refl : (s : ConversationState) → is_state (some s) s ≡ true
is_state_refl s = (==_iff (state_number s) (state_number s)).1 refl

past_address :
    (s r : ConversationState)
    → next_state s (some collect_address) ≡ some r
    → past_notes s ≡ some awaiting_confirmation
past_address s r e = ground arith

collects_address : (a : Option Action) → is_collect_address a ≡ true → a ≡ some collect_address
collects_address a e = ground arith

with_step-Sound :
    (s : ConversationState) (t : ConversationTransition) (attempts : ℕ) (flow : BotFlowDefinition)
    (variables : Variables) (step : FlowStep)
    → SoundFlow flow.notes_asked s t
    → SoundFlow flow.notes_asked s (with_step (some s) t attempts flow variables step)
unfolding with_step is_invalid
with_step-Sound s t attempts flow variables step h = ground (arith, is_state-eq s t.state)

without_step-Sound :
    (notes_asked : Bool) (s : ConversationState) (t : ConversationTransition)
    → SoundFlow notes_asked s t
    → SoundFlow notes_asked s (without_step (some s) t)
unfolding without_step
without_step-Sound notes_asked s t h = ground arith

with_key-Sound :
    (s : ConversationState) (t : ConversationTransition) (attempts : ℕ) (flow : BotFlowDefinition)
    (variables : Variables) (key : Option FlowStepKey)
    → SoundFlow flow.notes_asked s t
    → SoundFlow flow.notes_asked s (with_key (some s) t attempts flow variables key)
unfolding with_key
with_key-Sound s t attempts flow variables none h = without_step-Sound flow.notes_asked s t h
with_key-Sound s t attempts flow variables (some key) h =
    with_step-Sound s t attempts flow variables (flow.steps key) h

configured-Sound :
    (s : ConversationState) (t : ConversationTransition) (attempts : ℕ) (flow : BotFlowDefinition)
    (variables : Variables)
    → Sound s t
    → SoundFlow flow.notes_asked s (configured (some s) t attempts flow variables)
unfolding configured
configured-Sound s t attempts flow variables h = ground (
  arith,
  collects_address t.action,
  past_address s t.state,
  with_key-Sound s t attempts flow variables (step_of (some s) t),
)

-- A turn with the owner's texts follows the same diagram, but that the question for notes is passed
-- over where the owner does not ask it; and it too has a reply or an action.
pub advance_configured-Sound :
    (u : Unicode) (s : ConversationState) (text : Text) (attempts : ℕ) (flow : BotFlowDefinition)
    (variables : Variables)
    → SoundFlow flow.notes_asked s
        (advance_configured_conversation u (some s) text attempts flow variables)
unfolding advance_configured_conversation
advance_configured-Sound u s text attempts flow variables =
    configured-Sound s _ attempts flow variables
      (advance_conversation-Sound u s (understood u flow text) attempts)

-- The state has a step of the flow, and is not the last one.
abbrev pub IsBounded : ConversationState → Type 0
IsBounded s = (is_some (step_key s) ≡ true) × (s ≢ completed)

is_completed_iff : (s : ConversationState) → is_completed (some s) ≡ true → s ≡ completed
is_completed_iff s e = ground arith

-- A turn that the dialogue has no answer to in its table: no action, and the same state.
abbrev pub NotUnderstood : Unicode → ConversationState → Text → ℕ → BotFlowDefinition → Type 0
NotUnderstood u s text attempts flow =
    (advance_conversation u (some s) (understood u flow text) attempts).action ≡ none

-- What such a turn ends in: the question again, and from the second one in a row the owner.
abbrev pub Patient : ConversationState → ℕ → ConversationTransition → Type 0
Patient s attempts t =
    (t.state ≡ s)
    × (is_some t.reply ≡ true)
    × (t.invalid_attempts ≡ some (attempts + 1))
    × (t.action ≡ (if attempts == 0 then none else some human_takeover))

with_key-Patient :
    (s : ConversationState) (t : ConversationTransition) (attempts : ℕ) (flow : BotFlowDefinition)
    (variables : Variables) (key : Option FlowStepKey)
    → is_some key ≡ true
    → t.state ≡ s
    → is_invalid (some s) t ≡ true
    → Patient s attempts (with_key (some s) t attempts flow variables key)
unfolding with_key with_step
with_key-Patient s t attempts flow variables none keyed same invalid = cc
with_key-Patient s t attempts flow variables (some key) keyed same invalid = ground arith

stuck :
    (s : ConversationState) (t : ConversationTransition)
    → IsBounded s
    → Sound s t
    → t.action ≡ none
    → (t.state ≡ s) × (is_some (step_of (some s) t) ≡ true) × (is_invalid (some s) t ≡ true)
unfolding step_of key_of is_invalid
stuck s t b h quiet =
    let same : t.state ≡ s = ground arith in
    (
      same,
      ground (arith, is_state_refl s, is_completed_iff s),
      ground (arith, is_state_refl s, is_completed_iff s),
    )

plain_tests :
    (a : Option Action) (b : Bool)
    → a ≡ none
    → (is_edit_product a ≡ false) × ((is_collect_address a && b) ≡ false)
plain_tests a b e = rw e (refl, refl)

configured-Patient :
    (s : ConversationState) (t : ConversationTransition) (attempts : ℕ) (flow : BotFlowDefinition)
    (variables : Variables)
    → t.action ≡ none
    → Patient s attempts (with_key (some s) t attempts flow variables (step_of (some s) t))
    → Patient s attempts (configured (some s) t attempts flow variables)
unfolding configured
configured-Patient s t attempts flow variables quiet h =
    let (no_edit, no_address) = plain_tests t.action (not flow.notes_asked) quiet in
    rw (no_edit, no_address) h

-- A customer who is not understood is asked again once, and the second such turn in a row hands the
-- dialogue to the owner. In a state that has a step of the flow, and before the order is confirmed, a
-- message that the dialogue takes for no action leaves the state, is replied to and is counted; where
-- it is the first one there is no action, and from the second on the action is `human_takeover`.
pub configured_patience :
    (u : Unicode) (s : ConversationState) (text : Text) (attempts : ℕ) (flow : BotFlowDefinition)
    (variables : Variables)
    → IsBounded s
    → NotUnderstood u s text attempts flow
    → Patient s attempts (advance_configured_conversation u (some s) text attempts flow variables)
unfolding advance_configured_conversation
configured_patience u s text attempts flow variables b quiet =
    let t = advance_conversation u (some s) (understood u flow text) attempts in
    let (same, keyed, invalid) = stuck s t b (advance_conversation-Sound u s _ attempts) quiet in
    configured-Patient s t attempts flow variables quiet
      (with_key-Patient s t attempts flow variables (step_of (some s) t) keyed same invalid)
