-- ===== src/Conversation/Flow.antt =====
-- apps/api/src/modules/conversations/configured-flow.ts and the types of flow-definition.ts: the
-- dialogue with the owner's own commands and texts.
use automatizacion_wh.Common.{
  ℕ, suc, zero, ◌+◌, ◌-◌, Bool, true, false, not, ◌&&◌, ◌||◌, Option, none, some, List, [], ◌∷◌,
  ◌++◌, Text, codes, Unicode, leb, ◌==◌, if◌then◌else◌, length, text_eq, is_digit, is_some, or_else,
  select_one,
}
use automatizacion_wh.Conversation.State.{
  ConversationState, awaiting_size, showing_models, awaiting_name, awaiting_reuse_confirmation,
  awaiting_phone, awaiting_department, awaiting_locality, awaiting_address, awaiting_notes,
  awaiting_shipping, awaiting_confirmation, completed, human_takeover, edit_address, edit_locality,
  ConversationTransition, is_state, is_edit_product, is_collect_address, is_collect_name,
}
use automatizacion_wh.Conversation.Messages.{normalize_message, skip_spaces}
use automatizacion_wh.Conversation.Advance.{advance_conversation}

pub data CommandKey : Type 0 where
  human_key reset_key more_key confirm_key cancel_key : CommandKey
  edit_address_key edit_locality_key edit_product_key : CommandKey

pub data FlowStepKey : Type 0 where
  welcome_step size_step catalog_step reference_step name_step phone_step : FlowStepKey
  department_step locality_step address_step notes_step quote_step summary_step : FlowStepKey
  confirmation_step guide_step complete_step human_step : FlowStepKey

pub record FlowStep : Type 0 where
  pub enabled : Bool
  pub message : Text
  pub invalid_message : Option Text
  pub max_attempts : Option (Option ℕ)

-- An entry of `Object.entries(flow.commands)`.
pub record FlowCommand : Type 0 where
  pub key : CommandKey
  pub value : Text

-- The commands are in the order of the object's keys; a number that is no natural number is `none`.
pub record BotFlowDefinition : Type 0 where
  pub commands : List FlowCommand
  pub page_size : Option ℕ
  pub steps : FlowStepKey → FlowStep
  pub notes_asked : Bool
  pub show_carrier_in_summary : Bool
  pub send_guide_to_customer : Bool

-- `Record<string, string>`.
abbrev pub Variables : Type 0
Variables = Text → Option Text

-- The regular expression class `\w`.
abbrev pub is_word : ℕ → Bool
is_word c = is_digit c || (leb 65 c && leb c 90) || (leb 97 c && leb c 122) || c == 95

-- The longest run of `\w` at the start, and the rest.
unfoldable pub word_of : Text → Text × Text
word_of [] = ([], [])
word_of (c ∷ s) =
    let (word, rest) = word_of s in if is_word c then (c ∷ word, rest) else ([], c ∷ s)

-- `\s*\}\}` at the start: what follows it.
unfoldable pub after_braces : Text → Option Text
after_braces (a ∷ b ∷ s) = if a == 125 && b == 125 then some s else none
after_braces _ = none

unfoldable pub closed_word : Text × Text → Option (Text × Text)
unfolding after_braces skip_spaces
closed_word ([], rest) = none
closed_word (c ∷ word, rest) = elim (after_braces (skip_spaces rest)) [
  | none ↦ none
  | some after ↦ some (c ∷ word, after)
]

-- A match of `/\{\{\s*(\w+)\s*\}\}/` at the start: the key, and what follows the match. The classes of
-- neighbouring parts share no character, so the longest runs are the only ones that can match.
unfoldable pub match_variable : Text → Option (Text × Text)
unfolding closed_word word_of skip_spaces
match_variable (a ∷ b ∷ s) =
    if a == 123 && b == 123 then closed_word (word_of (skip_spaces s)) else none
match_variable _ = none

-- The number counts the characters that a match has taken already.
unfoldable pub render_from : Variables → ℕ → Text → Text
render_from variables taken [] = []
render_from variables (suc taken) (c ∷ s) = render_from variables taken s
render_from variables zero (c ∷ s) = elim (match_variable (c ∷ s)) [
  | none ↦ c ∷ render_from variables zero s
  | some (key, after) ↦
      or_else (variables key) [] ++ render_from variables (length s - length after) s
]

unfoldable pub render_flow_message : Variables → Text → Text
unfolding render_from
render_flow_message variables message = render_from variables 0 message

-- The table `steps` of the states that have a step.
unfoldable pub step_key : ConversationState → Option FlowStepKey
step_key awaiting_size = some size_step
step_key showing_models = some reference_step
step_key awaiting_name = some name_step
step_key awaiting_phone = some phone_step
step_key awaiting_department = some department_step
step_key awaiting_locality = some locality_step
step_key awaiting_address = some address_step
step_key awaiting_notes = some notes_step
step_key awaiting_confirmation = some confirmation_step
step_key completed = some complete_step
step_key awaiting_reuse_confirmation = none
step_key awaiting_shipping = none

abbrev pub canonical : CommandKey → Text
canonical human_key = codes "asesora"
canonical reset_key = codes "volver"
canonical more_key = codes "más modelos"
canonical confirm_key = codes "confirmar"
canonical cancel_key = codes "cancelar"
canonical edit_address_key = codes "cambiar dirección"
canonical edit_locality_key = codes "cambiar municipio"
canonical edit_product_key = codes "cambiar producto"

abbrev canonical_or : Text → Option FlowCommand → Text
canonical_or text none = text
canonical_or text (some command) = canonical command.key

-- The message that the state machine is given.
unfoldable pub understood : Unicode → BotFlowDefinition → Text → Text
understood u flow text = canonical_or text (
    select_one (λ c. text_eq (normalize_message u c.value) (normalize_message u text))
      flow.commands)

unfoldable pub key_of : ConversationState → ConversationTransition → Option FlowStepKey
unfolding step_key
key_of s t = elim t.action [
  | some human_takeover ↦ some human_step
  | some edit_address ↦ some address_step
  | some edit_locality ↦ some locality_step
  | _ ↦ if is_some t.reply then step_key t.state else none
]

unfoldable pub step_of : Option ConversationState → ConversationTransition → Option FlowStepKey
unfolding key_of
step_of none t = some welcome_step
step_of (some s) t = key_of s t

abbrev pub is_completed : Option ConversationState → Bool
is_completed (some completed) = true
is_completed _ = false

unfoldable pub is_invalid : Option ConversationState → ConversationTransition → Bool
is_invalid s t = is_state s t.state && not (is_some t.action) && not (is_completed s)

-- `a || b` of texts, where the first may be missing.
abbrev or_filled : Option Text → Text → Text
or_filled none other = other
or_filled (some []) other = other
or_filled (some (c ∷ s)) other = c ∷ s

abbrev chosen_size : Option (Option Text) → Variables → Text
chosen_size (some (some size)) variables = size
chosen_size _ variables = or_else (variables (codes "talla")) []

abbrev given_name : ConversationTransition → Variables → Text
given_name t variables =
    if is_collect_name t.action then or_else t.input [] else or_else (variables (codes "nombre")) []

unfoldable pub with_answers : ConversationTransition → Variables → Variables
with_answers t variables key =
    if text_eq key (codes "talla")
    then some (chosen_size t.selected_size variables)
    else if text_eq key (codes "nombre")
    then some (given_name t variables)
    else variables key

-- The transition with the text of a step.
unfoldable pub with_step :
    Option ConversationState
    → ConversationTransition
    → ℕ
    → BotFlowDefinition
    → Variables
    → FlowStep
    → ConversationTransition
unfolding is_invalid render_flow_message with_answers
with_step s t attempts flow variables step =
    if is_invalid s t && leb 2 (attempts + 1)
    then record t {
      invalid_attempts = some (attempts + 1);
      action = some human_takeover;
      reply = some (
          (flow.steps human_step).message
          ++ codes " Puedes escribir el dato correcto aquí para que lo revise.");
    }
    else if is_invalid s t
    then record t {
      invalid_attempts = some (attempts + 1);
      reply = some (
          render_flow_message variables
            (or_filled step.invalid_message (or_filled t.reply step.message)));
    }
    else record t {
      invalid_attempts = some 0;
      reply = some (render_flow_message (with_answers t variables) step.message);
    }

unfoldable pub without_step :
    Option ConversationState → ConversationTransition → ConversationTransition
without_step s t = if is_state s t.state then t else record t { invalid_attempts = some 0 }

-- `key === undefined`, and the rest.
unfoldable pub with_key :
    Option ConversationState
    → ConversationTransition
    → ℕ
    → BotFlowDefinition
    → Variables
    → Option FlowStepKey
    → ConversationTransition
unfolding with_step without_step
with_key s t attempts flow variables none = without_step s t
with_key s t attempts flow variables (some key) =
    with_step s t attempts flow variables (flow.steps key)

unfoldable pub configured :
    Option ConversationState
    → ConversationTransition
    → ℕ
    → BotFlowDefinition
    → Variables
    → ConversationTransition
unfolding step_of with_key
configured s t attempts flow variables =
    if is_edit_product t.action
    then record t { reply = none; invalid_attempts = some 0 }
    else if is_collect_address t.action && not flow.notes_asked
    then record t { state = awaiting_confirmation; reply = none }
    else with_key s t attempts flow variables (step_of s t)

unfoldable pub advance_configured_conversation :
    Unicode
    → Option ConversationState
    → Text
    → ℕ
    → BotFlowDefinition
    → Variables
    → ConversationTransition
unfolding configured understood
advance_configured_conversation u s text attempts flow variables =
    configured s (advance_conversation u s (understood u flow text) attempts) attempts flow
      variables
