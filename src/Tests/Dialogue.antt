-- ===== src/Tests/Dialogue.antt =====
-- A dialogue of the shop of the tests.
use automatizacion_wh.Common.{
  ℕ, ◌≤◌, ◌++◌, text_eq, includes, Memᴰ, select_one, trim, trim_start, is_space, ◌≡◌, ◌≢◌, refl,
  true, false, none, some, [], ◌∷◌, codes, ascii, arith,
}
use automatizacion_wh.Conversation.State.{
  awaiting_size, awaiting_address, awaiting_confirmation, completed, confirm_order,
}
use automatizacion_wh.Conversation.Messages.{
  to_fixed, parse_size, normalize_message, size_in_range, halves_of, comma_to_point, without_talla,
  without_marks, skip_spaces, small_number,
}
use automatizacion_wh.Conversation.Flow.{
  FlowCommand, human_key, confirm_key, BotFlowDefinition, Variables, understood,
  render_flow_message, render_from, match_variable, configured, with_key, step_of, key_of, step_key,
  with_step, is_invalid, advance_configured_conversation,
}
use automatizacion_wh.Conversation.Laws.{Sound, advance_conversation-Sound}
use automatizacion_wh.Conversation.Advance.{
  advance_conversation, answer, in_state, on_size, on_confirmation,
}
use automatizacion_wh.Conversation.Checks.{
  validate_bot_flow, command_issues, required_steps, flow_step_keys, message_issues, variables_from,
  distinct,
}
use automatizacion_wh.Conversation.Commands.{valid_flow_understands}
use automatizacion_wh.Conversation.Patience.{
  SoundFlow, NotUnderstood, Patient, advance_configured-Sound, configured_patience,
}
use automatizacion_wh.Conversation.Confirms.{confirms_when_asked}
use automatizacion_wh.Conversation.Sizes.{
  written, fixed, Spells, KeepsDigits, parse_size_only, parse_size-written,
}
use automatizacion_wh.Conversation.Templates.{render_flow_message-variable}

-- The owner calls the confirmation `dale`, and asks for no notes.
abbrev flow : BotFlowDefinition
flow = record {
  commands =
      record { key = human_key; value = codes "asesora" }
      ∷ record { key = confirm_key; value = codes "dale" }
      ∷ [];
  page_size = some 6;
  steps = λ k. record {
    enabled = true;
    message = codes "Hola {{ nombre }}";
    invalid_message = none;
    max_attempts = none;
  };
  notes_asked = false;
  show_carrier_in_summary = true;
  send_guide_to_customer = false;
}

abbrev nobody : Variables
nobody key = none

advance_conversation-Sound_example :
    Sound awaiting_size (advance_conversation ascii (some awaiting_size) (codes "Talla 37,5") 0)
advance_conversation-Sound_example =
    advance_conversation-Sound ascii awaiting_size (codes "Talla 37,5") 0

advance_configured-Sound_example : SoundFlow false awaiting_address (
    advance_configured_conversation ascii
      (some awaiting_address)
      (codes "Calle 10 # 4-22")
      0
      flow
      nobody)
advance_configured-Sound_example =
    advance_configured-Sound ascii awaiting_address (codes "Calle 10 # 4-22") 0 flow nobody

-- A word that is no size.
unclear : NotUnderstood ascii awaiting_size (codes "que") 1 flow
unfolding understood advance_conversation answer normalize_message in_state on_size parse_size
    size_in_range halves_of comma_to_point without_talla without_marks trim trim_start is_space
    text_eq select_one
unclear = refl

not_done : awaiting_size ≢ completed
not_done e = cc

-- It is the second one.
configured_patience_example :
    Patient awaiting_size 1
      (advance_configured_conversation ascii (some awaiting_size) (codes "que") 1 flow nobody)
unfolding step_key
configured_patience_example =
    configured_patience ascii awaiting_size (codes "que") 1 flow nobody (refl, not_done) unclear

-- The customer says the owner's word for the confirmation.
agreed :
    (advance_configured_conversation ascii
      (some awaiting_confirmation)
      (codes " Dale ")
      0
      flow
      nobody).action
    ≡ some confirm_order
unfolding advance_configured_conversation configured understood advance_conversation answer
    normalize_message in_state on_confirmation without_marks trim trim_start is_space text_eq
    select_one with_key step_of key_of with_step is_invalid
agreed = refl

confirms_when_asked_example :
    (some awaiting_confirmation ≡ some awaiting_confirmation)
    × (normalize_message ascii (understood ascii flow (codes " Dale ")) ≡ codes "confirmar")
    × ((advance_configured_conversation ascii
          (some awaiting_confirmation)
          (codes " Dale ")
          0
          flow
          nobody).state
        ≡ completed)
confirms_when_asked_example =
    confirms_when_asked ascii (some awaiting_confirmation) (codes " Dale ") 0 flow nobody agreed

half_size : parse_size ascii (codes " Talla  37,5") ≡ some (codes "37.5")
unfolding parse_size size_in_range halves_of comma_to_point without_talla trim trim_start is_space
    text_eq skip_spaces to_fixed small_number
half_size = refl

ascii-KeepsDigits : KeepsDigits ascii
ascii-KeepsDigits [] low = refl
ascii-KeepsDigits (c ∷ s) low = ground (arith, ascii-KeepsDigits s low.1)

parse_size_only_example :
    (h : ℕ) × (2 ≤ h)
    × (h ≤ 199)
    × (codes "37.5" ≡ fixed h)
    × Spells (comma_to_point (without_talla (ascii.to_lower_case (trim (codes " Talla  37,5"))))) h
parse_size_only_example = parse_size_only ascii (codes " Talla  37,5") half_size

parse_size-written_example : parse_size ascii (written 75) ≡ some (to_fixed 75)
parse_size-written_example =
    parse_size-written ascii 75 ascii-KeepsDigits (omega arith) (omega arith)

render_flow_message-variable_example :
    render_flow_message nobody (codes "Hola {{nombre}}!")
    ≡ codes "Hola " ++ (codes "" ++ render_flow_message nobody (codes "!"))
render_flow_message-variable_example =
    render_flow_message-variable nobody (codes "Hola ") (codes "!") 110 (codes "ombre")
      (refl, (refl, (refl, (refl, (refl, tt))))) (refl, (refl, (refl, (refl, (refl, (refl, tt))))))

-- Steps without variables.
abbrev simple_flow : BotFlowDefinition
simple_flow = record flow {
  steps = λ k. record {
    enabled = true;
    message = codes "Dime";
    invalid_message = none;
    max_attempts = none;
  };
}

abbrev confirming : FlowCommand
confirming = record { key = confirm_key; value = codes "dale" }

no_flow_issues : validate_bot_flow ascii simple_flow ≡ []
unfolding validate_bot_flow command_issues required_steps flow_step_keys message_issues
    variables_from render_flow_message render_from match_variable distinct includes
    normalize_message without_marks trim trim_start is_space text_eq
no_flow_issues = refl

valid_flow_understands_example : understood ascii simple_flow (codes "dale") ≡ codes "confirmar"
valid_flow_understands_example =
    valid_flow_understands ascii simple_flow {c = confirming} no_flow_issues
      (Memᴰ.tail (Memᴰ.head refl))
