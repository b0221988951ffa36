-- ===== src/Conversation/Checks.antt =====
-- `validateBotFlow` and `normalizeBotFlowForOperatorOnly` of
-- apps/api/src/modules/conversations/flow-definition.ts, and `botFlowVariablesForStep` of
-- packages/contracts/src/bot-flow.ts. An issue is its code, with the step and the variable that its
-- message names.
use automatizacion_wh.Common.{
  ℕ, suc, zero, ◌-◌, Bool, true, false, not, ◌&&◌, ◌||◌, Option, none, some, List, [], ◌∷◌, ◌++◌,
  Text, codes, Unicode, leb, ltb, ◌==◌, if◌then◌else◌, length, text_eq, includes, trim, or_else,
}
use automatizacion_wh.Conversation.Messages.{normalize_message}
use automatizacion_wh.Conversation.Flow.{
  FlowCommand, FlowStepKey, welcome_step, size_step, catalog_step, reference_step, name_step,
  phone_step, department_step, locality_step, address_step, notes_step, quote_step, summary_step,
  confirmation_step, guide_step, complete_step, human_step, BotFlowDefinition, match_variable,
  render_flow_message,
}

pub data FlowIssue : Type 0 where
  invalid_page_size invalid_commands : FlowIssue
  required_step_disabled empty_message invalid_attempts malformed_variable : FlowStepKey → FlowIssue
  unknown_variable unavailable_variable : FlowStepKey → Text → FlowIssue

unfoldable pub flow_step_keys : List FlowStepKey
flow_step_keys =
    welcome_step ∷ size_step ∷ catalog_step ∷ reference_step ∷ name_step ∷ phone_step
    ∷ department_step ∷ locality_step ∷ address_step ∷ notes_step ∷ quote_step ∷ summary_step
    ∷ confirmation_step ∷ guide_step ∷ complete_step ∷ human_step ∷ []

unfoldable pub required_steps : List FlowStepKey
required_steps =
    welcome_step ∷ size_step ∷ catalog_step ∷ reference_step ∷ name_step ∷ phone_step
    ∷ department_step ∷ locality_step ∷ address_step ∷ quote_step ∷ summary_step ∷ confirmation_step
    ∷ complete_step ∷ human_step ∷ []

-- The place of a step in the list of the keys.
abbrev step_index : FlowStepKey → ℕ
step_index welcome_step = 0
step_index size_step = 1
step_index catalog_step = 2
step_index reference_step = 3
step_index name_step = 4
step_index phone_step = 5
step_index department_step = 6
step_index locality_step = 7
step_index address_step = 8
step_index notes_step = 9
step_index quote_step = 10
step_index summary_step = 11
step_index confirmation_step = 12
step_index guide_step = 13
step_index complete_step = 14
step_index human_step = 15

abbrev is_human_step : FlowStepKey → Bool
is_human_step human_step = true
is_human_step _ = false

abbrev from_index : ℕ → FlowStepKey → List Text → List Text
from_index n step names = if leb n (step_index step) then names else []

unfoldable pub bot_flow_variables_for_step : FlowStepKey → List Text
bot_flow_variables_for_step step =
    if is_human_step step
    then []
    else from_index 2 step (codes "talla" ∷ [])
      ++ from_index 4 step (codes "referencia" ∷ codes "pedido" ∷ [])
      ++ from_index 5 step (codes "nombre" ∷ [])
      ++ from_index 11 step (codes "total" ∷ codes "transportadora" ∷ [])

abbrev when : Bool → FlowIssue → List FlowIssue
when true issue = issue ∷ []
when false issue = []

abbrev outside : ℕ → ℕ → Option ℕ → Bool
outside low high none = true
outside low high (some n) = ltb n low || ltb high n

abbrev pub command_values : Unicode → List FlowCommand → List Text
command_values u [] = []
command_values u (c ∷ cs) = normalize_message u c.value ∷ command_values u cs

-- The set of the texts is as large as the list if no two are equal.
unfoldable pub distinct : List Text → Bool
distinct [] = true
distinct (t ∷ ts) = not (includes ts t) && distinct ts

unfoldable pub command_issues : Unicode → BotFlowDefinition → List FlowIssue
unfolding distinct
command_issues u flow =
    let commands = command_values u flow.commands in
    when (includes commands [] || not (distinct commands)) invalid_commands

abbrev disabled_steps : BotFlowDefinition → List FlowStepKey → List FlowIssue
disabled_steps flow [] = []
disabled_steps flow (k ∷ ks) =
    when (not (flow.steps k).enabled) (required_step_disabled k) ++ disabled_steps flow ks

abbrev empty_messages : BotFlowDefinition → List FlowStepKey → List FlowIssue
empty_messages flow [] = []
empty_messages flow (k ∷ ks) =
    when ((flow.steps k).enabled && text_eq (trim (flow.steps k).message) []) (empty_message k)
    ++ empty_messages flow ks

-- `/[{}]/.test(text)`.
abbrev has_brace : Text → Bool
has_brace [] = false
has_brace (c ∷ s) = c == 123 || c == 125 || has_brace s

-- The variables of a message, as in `renderFlowMessage`.
unfoldable pub variables_from : ℕ → Text → List Text
variables_from taken [] = []
variables_from (suc taken) (c ∷ s) = variables_from taken s
variables_from zero (c ∷ s) = elim (match_variable (c ∷ s)) [
  | none ↦ variables_from zero s
  | some (key, after) ↦ key ∷ variables_from (length s - length after) s
]

abbrev known_variables : List Text
known_variables =
    codes "talla"
    ∷ codes "referencia"
    ∷ codes "nombre"
    ∷ codes "pedido"
    ∷ codes "total"
    ∷ codes "transportadora"
    ∷ []

abbrev variable_issue : FlowStepKey → Text → List FlowIssue
variable_issue step key =
    if not (includes known_variables key)
    then unknown_variable step key ∷ []
    else when (not (includes (bot_flow_variables_for_step step) key))
        (unavailable_variable step key)

abbrev variable_issues : FlowStepKey → List Text → List FlowIssue
variable_issues step [] = []
variable_issues step (key ∷ keys) = variable_issue step key ++ variable_issues step keys

-- The text without its variables is the text rendered with no values.
unfoldable pub message_issues : FlowStepKey → Text → List FlowIssue
unfolding variables_from bot_flow_variables_for_step
message_issues step message =
    when (has_brace (render_flow_message (λ key. none) message)) (malformed_variable step)
    ++ variable_issues step (variables_from 0 message)

abbrev attempts_outside : Option (Option ℕ) → Bool
attempts_outside none = false
attempts_outside (some n) = outside 1 10 n

abbrev step_issues : BotFlowDefinition → List FlowStepKey → List FlowIssue
step_issues flow [] = []
step_issues flow (k ∷ ks) =
    when (attempts_outside (flow.steps k).max_attempts) (invalid_attempts k)
    ++ message_issues k (flow.steps k).message
    ++ message_issues k (or_else (flow.steps k).invalid_message (codes ""))
    ++ step_issues flow ks

unfoldable pub validate_bot_flow : Unicode → BotFlowDefinition → List FlowIssue
unfolding command_issues required_steps flow_step_keys message_issues
validate_bot_flow u flow =
    when (outside 1 10 flow.page_size) invalid_page_size
    ++ (command_issues u flow
        ++ (disabled_steps flow required_steps
            ++ (empty_messages flow flow_step_keys ++ step_issues flow flow_step_keys)))

unfoldable pub normalize_bot_flow_for_operator_only : BotFlowDefinition → BotFlowDefinition
normalize_bot_flow_for_operator_only flow = record flow { send_guide_to_customer = false }
