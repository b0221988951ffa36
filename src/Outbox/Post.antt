-- ===== src/Outbox/Post.antt =====
-- The tables of apps/api/src/database/schema/whatsapp.ts that the outbound messages use. The times
-- of updates are left out, and so are the columns of a conversation that only its dialogue uses.
use automatizacion_wh.Common.{
  ℕ, ◌+◌, Bool, true, false, Option, none, some, List, Text, ltb, ◌==◌, is_number, text_eq,
  select_one, update_where,
}
use automatizacion_wh.Database.{Customer}
use automatizacion_wh.Outbox.State.{OutboundMessageStatus, pending, processing}

pub data Source : Type 0 where
  bot owner_panel owner_mobile : Source

pub data MessageType : Type 0 where
  text image document : MessageType

pub data MimeType : Type 0 where
  jpeg png pdf : MimeType

pub record OutboundMessage : Type 0 where
  pub id : ℕ
  pub conversation_id : Option ℕ
  pub idempotency_key : Text
  pub customer_phone : Text
  pub source : Source
  pub message_type : MessageType
  pub text_body : Option Text
  pub media_storage_key : Option Text
  pub media_mime_type : Option MimeType
  pub status : OutboundMessageStatus
  pub attempt_count : ℕ
  pub whatsapp_message_id : Option Text
  pub error_code : Option Text
  pub expires_at : Option ℕ
  pub created_at : ℕ

pub data TranscriptStatus : Type 0 where
  line_queued line_sent line_failed line_cancelled line_delivered line_read : TranscriptStatus

-- A row of `whatsapp_conversation_messages` that shows an outbound message.
pub record TranscriptLine : Type 0 where
  pub conversation_id : ℕ
  pub outbound_message_id : Option ℕ
  pub provider_message_id : Option Text
  pub source : Source
  pub message_type : MessageType
  pub text_body : Option Text
  pub media_storage_key : Option Text
  pub media_mime_type : Option MimeType
  pub status : TranscriptStatus

pub data Mode : Type 0 where
  bot_mode human_mode : Mode

pub record WhatsappConversation : Type 0 where
  pub id : ℕ
  pub customer_phone : Text
  pub customer_id : Option ℕ
  pub mode : Mode
  pub last_inbound_message_at : ℕ

pub record Post : Type 0 where
  pub messages : List OutboundMessage
  pub transcript : List TranscriptLine
  pub conversations : List WhatsappConversation
  pub customers : List Customer

abbrev pub is_message : ℕ → OutboundMessage → Bool
is_message id m = m.id == id

abbrev pub is_keyed : Text → OutboundMessage → Bool
is_keyed key m = text_eq m.idempotency_key key

abbrev pub is_conversation : ℕ → WhatsappConversation → Bool
is_conversation id c = c.id == id

abbrev pub is_pending_message : OutboundMessageStatus → Bool
is_pending_message pending = true
is_pending_message _ = false

abbrev pub is_processing_message : OutboundMessageStatus → Bool
is_processing_message processing = true
is_processing_message _ = false

abbrev pub is_bot : Source → Bool
is_bot bot = true
is_bot _ = false

abbrev pub is_document : MessageType → Bool
is_document document = true
is_document _ = false

abbrev pub is_human_mode : Mode → Bool
is_human_mode human_mode = true
is_human_mode bot_mode = false

-- The conversation that a message is joined with.
abbrev pub conversation_of : Post → OutboundMessage → Option WhatsappConversation
conversation_of post m = elim m.conversation_id [
  | none ↦ none
  | some id ↦ select_one (is_conversation id) post.conversations
]

-- 24 hours in milliseconds.
abbrev pub service_window_ms : ℕ
service_window_ms = 86400000

-- `last_inbound_message_at > now() - interval '24 hours'`.
abbrev pub window_open : ℕ → WhatsappConversation → Bool
window_open now c = ltb now (c.last_inbound_message_at + service_window_ms)

unfoldable pub write_messages :
    Post → (OutboundMessage → Bool) → (OutboundMessage → OutboundMessage) → Post
write_messages post test f = record post { messages = update_where test f post.messages }

unfoldable pub write_transcript :
    Post → (TranscriptLine → Bool) → (TranscriptLine → TranscriptLine) → Post
write_transcript post test f = record post { transcript = update_where test f post.transcript }

abbrev pub shows : ℕ → TranscriptLine → Bool
shows id l = is_number l.outbound_message_id id
