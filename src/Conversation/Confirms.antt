-- ===== src/Conversation/Confirms.antt =====
-- When the dialogue confirms an order (apps/api/src/modules/conversations/configured-flow.ts).
use automatizacion_wh.Common.{
  ℕ, ◌≡◌, sym, ap, subst, ◌∙◌, ◌⊎◌, inl, inr, true, Option, none, some, Text, codes, Unicode,
  text_eq, text_eq_iff, arith,
}
use automatizacion_wh.Conversation.State.{
  ConversationState, awaiting_confirmation, completed, human_takeover, confirm_order,
  ConversationTransition,
}
use automatizacion_wh.Conversation.Messages.{normalize_message}
use automatizacion_wh.Conversation.Advance.{on_confirmation, in_state, answer, advance_conversation}
use automatizacion_wh.Conversation.Flow.{
  BotFlowDefinition, FlowStep, FlowStepKey, Variables, understood, step_of, with_step, without_step,
  with_key, configured, advance_configured_conversation,
}
use automatizacion_wh.Conversation.Laws.{next_state, advance_conversation-Sound}

abbrev Confirms : ConversationTransition → Type 0
Confirms t = t.action ≡ some confirm_order

-- The diagram has one edge of that action.
confirming_edge :
    (s r : ConversationState)
    → next_state s (some confirm_order) ≡ some r
    → (s ≡ awaiting_confirmation) × (r ≡ completed)
confirming_edge s r e = ground arith

confirmation_word : (m : Text) → Confirms (on_confirmation m) → text_eq m (codes "confirmar") ≡ true
unfolding on_confirmation
confirmation_word m e = ground arith

answer_word :
    (u : Unicode) (message m : Text) (attempts : ℕ)
    → Confirms (answer u awaiting_confirmation message m attempts)
    → text_eq m (codes "confirmar") ≡ true
unfolding answer in_state
answer_word u message m attempts e = ground (arith, confirmation_word m)

other_action : ¬ (some human_takeover ≡ some confirm_order)
other_action e = cc

with_step_kept :
    (s : Option ConversationState) (t : ConversationTransition) (attempts : ℕ)
    (flow : BotFlowDefinition) (variables : Variables) (step : FlowStep)
    → ((with_step s t attempts flow variables step).state ≡ t.state)
      × (((with_step s t attempts flow variables step).action ≡ t.action)
          ⊎ ((with_step s t attempts flow variables step).action ≡ some human_takeover))
unfolding with_step
with_step_kept s t attempts flow variables step = ground arith

with_key-Confirms :
    (s : Option ConversationState) (t : ConversationTransition) (attempts : ℕ)
    (flow : BotFlowDefinition) (variables : Variables) (key : Option FlowStepKey)
    → Confirms (with_key s t attempts flow variables key)
    → Confirms t × ((with_key s t attempts flow variables key).state ≡ t.state)
unfolding with_key without_step
with_key-Confirms s t attempts flow variables none e = ground arith
with_key-Confirms s t attempts flow variables (some key) e =
    let (kept, action) = with_step_kept s t attempts flow variables (flow.steps key) in
    elim action [
      | inl same ↦ (sym same ∙ e, kept)
      | inr taken ↦ absurd (other_action (sym taken ∙ e))
    ]

configured-Confirms :
    (s : Option ConversationState) (t : ConversationTransition) (attempts : ℕ)
    (flow : BotFlowDefinition) (variables : Variables)
    → Confirms (configured s t attempts flow variables)
    → Confirms t × ((configured s t attempts flow variables).state ≡ t.state)
unfolding configured
configured-Confirms s t attempts flow variables e =
    ground (arith, with_key-Confirms s t attempts flow variables (step_of s t))

advance-Confirms :
    (u : Unicode) (s : Option ConversationState) (message : Text) (attempts : ℕ)
    → Confirms (advance_conversation u s message attempts)
    → (s ≡ some awaiting_confirmation)
      × (normalize_message u message ≡ codes "confirmar")
      × ((advance_conversation u s message attempts).state ≡ completed)
unfolding advance_conversation
advance-Confirms u none message attempts e = cc
advance-Confirms u (some s) message attempts e =
    let (follows, answered) = advance_conversation-Sound u s message attempts in
    let (asked, done) =
      confirming_edge s (advance_conversation u (some s) message attempts).state
        (cc (e, follows)) in
    let word =
      answer_word u message (normalize_message u message) attempts (
        subst (λ r. Confirms (answer u r message (normalize_message u message) attempts)) asked
          e) in
    (ap some asked, (text_eq_iff (normalize_message u message) (codes "confirmar")).0 word, done)

-- A turn of the dialogue asks for the confirmation of an order only where the customer is asked for it:
-- the turn begins in the state awaiting_confirmation, its message is one that the owner's commands make
-- to `confirmar`, and it ends in the state completed.
pub confirms_when_asked :
    (u : Unicode) (s : Option ConversationState) (text : Text) (attempts : ℕ)
    (flow : BotFlowDefinition) (variables : Variables)
    → (advance_configured_conversation u s text attempts flow variables).action ≡ some confirm_order
    → (s ≡ some awaiting_confirmation)
      × (normalize_message u (understood u flow text) ≡ codes "confirmar")
      × ((advance_configured_conversation u s text attempts flow variables).state ≡ completed)
unfolding advance_configured_conversation
confirms_when_asked u s text attempts flow variables e =
    let (sent, kept) = configured-Confirms s _ attempts flow variables e in
    let (asked, word, done) = advance-Confirms u s (understood u flow text) attempts sent in
    (asked, word, cc (kept, done))
