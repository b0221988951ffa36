-- ===== src/Conversation/Advance.antt =====
-- `advanceConversation` of apps/api/src/modules/conversations/conversation-state.ts: what a message
-- of the customer does to the dialogue.
use automatizacion_wh.Common.{
  ℕ, ◌+◌, Bool, true, false, not, ◌&&◌, ◌||◌, Option, none, some, List, [], ◌∷◌, ◌++◌, Text, codes,
  Unicode, leb, if◌then◌else◌, length, text_eq, includes, trim,
}
use automatizacion_wh.Conversation.State.{
  ConversationState, awaiting_size, showing_models, awaiting_name, awaiting_reuse_confirmation,
  awaiting_phone, awaiting_department, awaiting_locality, awaiting_address, awaiting_notes,
  awaiting_shipping, awaiting_confirmation, completed, Action, show_catalog, reset, human_takeover,
  more_models, select_reference, reuse_destination, capture_new_destination, collect_name,
  collect_phone, collect_department, collect_locality, collect_address, collect_notes,
  select_shipping, confirm_order, cancel_order, edit_address, edit_locality, edit_product,
  ConversationTransition, says, acts,
}
use automatizacion_wh.Conversation.Messages.{
  normalize_message, parse_size, phone_digits, is_colombian_mobile,
}

abbrev is_awaiting_address : ConversationState → Bool
is_awaiting_address awaiting_address = true
is_awaiting_address _ = false

abbrev is_awaiting_locality : ConversationState → Bool
is_awaiting_locality awaiting_locality = true
is_awaiting_locality _ = false

abbrev is_awaiting_confirmation : ConversationState → Bool
is_awaiting_confirmation awaiting_confirmation = true
is_awaiting_confirmation _ = false

abbrev pub asks_human : Text → Bool
asks_human normalized = text_eq normalized (codes "asesora") || text_eq normalized (codes "asesor")

abbrev pub asks_reset : ConversationState → Text → Bool
asks_reset s normalized =
    text_eq normalized (codes "volver")
    || text_eq normalized (codes "reiniciar")
    || text_eq normalized (codes "cambiar talla")
    || (text_eq normalized (codes "cancelar") && not (is_awaiting_confirmation s))

-- `if (state === 'awaiting_size')`.
unfoldable pub on_size : Option Text → ℕ → ConversationTransition
on_size (some selected_size) attempts = record (acts showing_models show_catalog) {
  selected_size = some (some selected_size);
}
on_size none attempts =
    let next_attempts = attempts + 1 in
    record (says awaiting_size (
      if leb 2 next_attempts
      then codes "No pude reconocer la talla. Escribe una talla como 37 o escribe “asesora”."
      else codes "Escribe la talla en números, por ejemplo 37 o 37.5.")) {
        invalid_attempts = some next_attempts;
      }

unfoldable pub on_reuse : Text → ConversationTransition
on_reuse normalized =
    if text_eq normalized (codes "si")
    then acts awaiting_reuse_confirmation reuse_destination
    else if text_eq normalized (codes "cambiar direccion")
    then record (says awaiting_name (codes "¿Cuál es tu nombre completo?")) {
      action = some capture_new_destination;
    }
    else says awaiting_reuse_confirmation (
        codes
          "Responde “sí” para usar los datos anteriores o “cambiar dirección” para escribirlos de nuevo.")

-- A datum taken down: the next state, its question, the action and the input.
abbrev takes : ConversationState → Text → Action → Text → ConversationTransition
takes s question a value = record (says s question) { action = some a; input = some value }

unfoldable pub on_name : Text → ConversationTransition
on_name value =
    if leb 2 (length value) && leb (length value) 120
    then takes awaiting_phone
        (codes "¿Usamos el número de este WhatsApp? Responde “sí” o escribe otro celular.")
        collect_name value
    else says awaiting_name (codes "Escribe tu nombre completo.")

abbrev same_phone_words : List Text
same_phone_words = codes "si" ∷ codes "mismo" ∷ codes "mismo numero" ∷ codes "este" ∷ []

unfoldable pub on_phone : Text → Text → ConversationTransition
on_phone value normalized =
    let mobile = is_colombian_mobile (phone_digits value) in
    if mobile || includes same_phone_words normalized
    then takes awaiting_department (codes "¿En qué departamento recibes el pedido?") collect_phone
        (if mobile then value else [])
    else says awaiting_phone
        (codes "Responde “sí” para usar este WhatsApp o escribe un celular colombiano válido.")

unfoldable pub on_department : Text → ConversationTransition
on_department value =
    if leb 3 (length value)
    then takes awaiting_locality (codes "¿En qué ciudad o municipio?") collect_department value
    else says awaiting_department (codes "Escribe el nombre del departamento.")

unfoldable pub on_locality : Text → ConversationTransition
on_locality value =
    if leb 2 (length value)
    then record (acts awaiting_address collect_locality) { input = some value }
    else says awaiting_locality (codes "Escribe la ciudad o municipio.")

unfoldable pub on_address : Text → ConversationTransition
on_address value =
    if leb 5 (length value)
    then takes awaiting_notes
        (codes "¿Alguna indicación de entrega? Responde “no” o “saltar” si no aplica.")
        collect_address value
    else says awaiting_address (codes "Escribe una dirección más completa.")

abbrev no_notes_words : List Text
no_notes_words =
    codes "ninguna" ∷ codes "no" ∷ codes "omitir" ∷ codes "saltar" ∷ codes "sin indicaciones" ∷ []

unfoldable pub on_notes : Text → Text → ConversationTransition
on_notes value normalized = record (acts awaiting_confirmation collect_notes) {
  input = some (if includes no_notes_words normalized then [] else value);
}

unfoldable pub on_shipping : Text → ConversationTransition
on_shipping value =
    if text_eq value (codes "1") || text_eq value (codes "2")
    then record (acts awaiting_confirmation select_shipping) { input = some value }
    else says awaiting_shipping (codes "Responde 1 para envío económico o 2 para envío protegido.")

unfoldable pub on_confirmation : Text → ConversationTransition
on_confirmation normalized =
    if text_eq normalized (codes "cambiar direccion")
    then acts awaiting_address edit_address
    else if text_eq normalized (codes "cambiar municipio")
    then acts awaiting_locality edit_locality
    else if text_eq normalized (codes "cambiar producto")
    then record (acts awaiting_size edit_product) { selected_size = some none }
    else if text_eq normalized (codes "confirmar")
    then acts completed confirm_order
    else if text_eq normalized (codes "cancelar")
    then record (acts awaiting_size cancel_order) { selected_size = some none }
    else says awaiting_confirmation (
        codes
          "Responde “confirmar”, “cancelar”, “cambiar dirección”, “cambiar municipio” o “cambiar producto”.")

-- The states are checked in this order; what is left is `showing_models`.
unfoldable pub on_models : Unicode → Text → Text → ConversationTransition
on_models u message normalized =
    if text_eq normalized (codes "mas modelos") || text_eq normalized (codes "mas")
    then acts showing_models more_models
    else if not (text_eq normalized [])
    then record (acts showing_models select_reference) {
      input = some (u.to_upper_case (trim message));
    }
    else says showing_models
        (codes "Escribe la referencia que te gustó, “más modelos” o “cambiar talla”.")

-- What follows the commands that all states know.
unfoldable pub in_state : Unicode → ConversationState → Text → Text → ℕ → ConversationTransition
unfolding on_size on_reuse on_name on_phone on_department on_locality on_address on_notes
    on_shipping on_confirmation on_models
in_state u awaiting_size message normalized attempts = on_size (parse_size u message) attempts
in_state u awaiting_reuse_confirmation message normalized attempts = on_reuse normalized
in_state u awaiting_name message normalized attempts = on_name (trim message)
in_state u awaiting_phone message normalized attempts = on_phone (trim message) normalized
in_state u awaiting_department message normalized attempts = on_department (trim message)
in_state u awaiting_locality message normalized attempts = on_locality (trim message)
in_state u awaiting_address message normalized attempts = on_address (trim message)
in_state u awaiting_notes message normalized attempts = on_notes (trim message) normalized
in_state u awaiting_shipping message normalized attempts = on_shipping (trim message)
in_state u awaiting_confirmation message normalized attempts = on_confirmation normalized
in_state u completed message normalized attempts =
    says completed (codes "Tu pedido ya fue confirmado. Escribe “asesora” si necesitas ayuda.")
in_state u showing_models message normalized attempts = on_models u message normalized

unfoldable pub answer : Unicode → ConversationState → Text → Text → ℕ → ConversationTransition
unfolding in_state
answer u s message normalized attempts =
    if is_awaiting_address s && text_eq normalized (codes "confirmar")
    then says s (codes "Escribe la dirección completa de entrega antes de confirmar.")
    else if is_awaiting_locality s && text_eq normalized (codes "confirmar")
    then says s (codes "Escribe el municipio nuevo antes de confirmar.")
    else if asks_human normalized
    then record (says s (codes "Listo. La propietaria continuará la conversación contigo.")) {
      action = some human_takeover;
    }
    else if asks_reset s normalized
    then record (says awaiting_size (codes "Claro. ¿Qué talla buscas?")) {
      selected_size = some none;
      invalid_attempts = some 0;
      action = some reset;
    }
    else in_state u s message normalized attempts

-- The smiling face is a pair of UTF-16 units.
unfoldable pub advance_conversation :
    Unicode → Option ConversationState → Text → ℕ → ConversationTransition
unfolding answer normalize_message
advance_conversation u none message attempts =
    says awaiting_size (codes "¡Hola! " ++ (55357 ∷ 56842 ∷ codes " ¿Qué talla buscas?"))
advance_conversation u (some s) message attempts =
    answer u s message (normalize_message u message) attempts
