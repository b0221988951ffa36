-- ===== src/Outbox/Claim.antt =====
-- The methods of apps/api/src/modules/whatsapp/postgres-outbound-repository.ts that the worker calls.
use automatizacion_wh.Common.{
  ℕ, ◌+◌, Bool, true, false, not, ◌&&◌, ◌||◌, Option, none, some, Text, codes, Result, ok, ◌>>=◌,
  ltb, ◌==◌, if◌then◌else◌, is_some, or_else, select_all, update_where, exists_row, first_by,
}
use automatizacion_wh.Guide.Marks.{slice_to}
use automatizacion_wh.Outbox.State.{
  processing, sent, failed, cancelled, assert_outbound_message_transition, mark_sent, mark_failed,
  cancel,
}
use automatizacion_wh.Outbox.Post.{
  text, image, document, MimeType, jpeg, png, pdf, OutboundMessage, TranscriptLine, line_sent,
  line_failed, line_cancelled, WhatsappConversation, Post, is_message, is_pending_message,
  is_processing_message, is_bot, is_document, is_human_mode, conversation_of, window_open,
  write_messages, write_transcript, shows,
}

pub data ClaimedOutboundMessage : Type 0 where
  claimed_text : ℕ → Text → Text → ClaimedOutboundMessage
  claimed_document : ℕ → Text → Text → Text → ClaimedOutboundMessage
  claimed_image : ℕ → Text → Text → Text → Option MimeType → ClaimedOutboundMessage

-- `conversation.mode = 'human' OR (document AND last_inbound_message_at <= now() - '24 hours')`.
abbrev blocked_in : ℕ → OutboundMessage → Option WhatsappConversation → Bool
blocked_in now m none = false
blocked_in now m (some c) =
    is_human_mode c.mode || (is_document m.message_type && not (window_open now c))

-- The messages of the bot that `claimNext` cancels before it claims.
unfoldable pub is_barred : ℕ → Post → OutboundMessage → Bool
is_barred now post m =
    is_pending_message m.status && is_bot m.source && blocked_in now m (conversation_of post m)

abbrev cancel_reason : Option WhatsappConversation → Text
cancel_reason none = codes "service_window_closed"
cancel_reason (some c) =
    if is_human_mode c.mode then codes "human_control" else codes "service_window_closed"

unfoldable pub cancel_barred : ℕ → Post → Post
unfolding is_barred
cancel_barred now post = record post {
  messages =
      update_where (is_barred now post)
        (λ m. record m {
          status = cancelled;
          error_code = some (cancel_reason (conversation_of post m));
        })
        post.messages;
  transcript =
      update_where (λ l. exists_row (λ m. is_barred now post m && shows m.id l) post.messages)
        (λ l. record l { status = line_cancelled }) post.transcript;
}

abbrev is_image_type : Option MimeType → Bool
is_image_type (some jpeg) = true
is_image_type (some png) = true
is_image_type _ = false

abbrev is_pdf_type : Option MimeType → Bool
is_pdf_type (some pdf) = true
is_pdf_type _ = false

abbrev is_complete : OutboundMessage → Bool
is_complete m = elim m.message_type [
  | text ↦ true
  | image ↦ is_some m.media_storage_key && is_image_type m.media_mime_type
  | document ↦ is_some m.media_storage_key && is_pdf_type m.media_mime_type
]

abbrev not_expired : ℕ → Option ℕ → Bool
not_expired now none = true
not_expired now (some expires_at) = ltb now expires_at

-- A comparison with the columns of a missing conversation is NULL, which is not true.
abbrev pub in_window : ℕ → Option WhatsappConversation → Bool
in_window now none = false
in_window now (some c) = window_open now c

-- `conversation.id IS NULL OR conversation.mode = 'bot'`.
abbrev pub bot_may_speak : Option WhatsappConversation → Bool
bot_may_speak none = true
bot_may_speak (some c) = not (is_human_mode c.mode)

-- `locked` are the rows that `SKIP LOCKED` passes over.
unfoldable pub is_sendable : (ℕ → Bool) → ℕ → Post → OutboundMessage → Bool
is_sendable locked now post m =
    is_pending_message m.status
    && not (locked m.id)
    && is_some m.text_body
    && is_complete m
    && not_expired now m.expires_at
    && (not (is_document m.message_type) || in_window now (conversation_of post m))
    && (not (is_bot m.source) || bot_may_speak (conversation_of post m))

-- `ORDER BY created_at, id`.
abbrev pub queued_before : OutboundMessage → OutboundMessage → Bool
queued_before m n = ltb m.created_at n.created_at || (m.created_at == n.created_at && ltb m.id n.id)

abbrev pub claimed_message : OutboundMessage → ClaimedOutboundMessage
claimed_message m = elim m.message_type [
  | text ↦ claimed_text m.id m.customer_phone (or_else m.text_body (codes ""))
  | document ↦
      claimed_document m.id m.customer_phone (or_else m.text_body (codes ""))
        (or_else m.media_storage_key (codes ""))
  | image ↦
      claimed_image m.id m.customer_phone (or_else m.text_body (codes ""))
        (or_else m.media_storage_key (codes "")) m.media_mime_type
]

-- The update of the candidate's row.
unfoldable pub claim_message : Post → Option OutboundMessage → Post × Option ClaimedOutboundMessage
unfolding write_messages
claim_message post none = (post, none)
claim_message post (some m) = (
  write_messages post (is_message m.id)
      (λ n. record n { status = processing; attempt_count = n.attempt_count + 1 }),
  some (claimed_message m),
)

-- The message that is claimed, of the tables after the cancellations.
unfoldable pub candidate_message : (ℕ → Bool) → ℕ → Post → Option OutboundMessage
candidate_message locked now post =
    first_by queued_before (select_all (is_sendable locked now post) post.messages)

unfoldable pub claim_next_message : (ℕ → Bool) → ℕ → Post → Post × Option ClaimedOutboundMessage
unfolding cancel_barred candidate_message claim_message
claim_next_message locked now post =
    let post₁ = cancel_barred now post in claim_message post₁ (candidate_message locked now post₁)

abbrev pub is_processing_id : ℕ → OutboundMessage → Bool
is_processing_id id m = is_message id m && is_processing_message m.status

abbrev pub is_processing_document : ℕ → OutboundMessage → Bool
is_processing_document id m = is_processing_id id m && is_document m.message_type

unfoldable pub may_send_document : ℕ → Post → ℕ → Bool
may_send_document now post id =
    exists_row (λ m. is_processing_document id m && in_window now (conversation_of post m))
      post.messages

-- The transcript lines of a message, where the message was written.
abbrev write_lines : Post → Bool → ℕ → (TranscriptLine → TranscriptLine) → Post
write_lines post written id f = write_transcript post (λ l. written && shows id l) f

unfoldable pub cancel_document : Post → ℕ → Post
unfolding write_messages write_transcript
cancel_document post id =
    write_lines
      (write_messages post (is_processing_document id)
        (λ m. record m { status = cancelled; error_code = some (codes "service_window_closed") }))
      (exists_row (is_processing_document id) post.messages) id
      (λ l. record l { status = line_cancelled })

unfoldable pub authorize_document_send : ℕ → Post → ℕ → Result (Post × Bool)
unfolding may_send_document cancel_document assert_outbound_message_transition
authorize_document_send now post id = do
  next ← assert_outbound_message_transition processing cancel
  ok (if may_send_document now post id then (post, true) else (cancel_document post id, false))

unfoldable pub write_sent : Post → ℕ → Text → Post
unfolding write_messages write_transcript
write_sent post id whatsapp_message_id =
    write_lines
      (write_messages post (is_processing_id id) (λ m. record m {
        status = sent;
        whatsapp_message_id = some whatsapp_message_id;
        error_code = none;
      }))
      (exists_row (is_processing_id id) post.messages) id
      (λ l. record l { status = line_sent; provider_message_id = some whatsapp_message_id })

unfoldable pub message_sent : Post → ℕ → Text → Result Post
unfolding write_sent assert_outbound_message_transition
message_sent post id whatsapp_message_id = do
  next ← assert_outbound_message_transition processing mark_sent
  ok (write_sent post id whatsapp_message_id)

unfoldable pub write_send_failed : Post → ℕ → Text → Post
unfolding write_messages write_transcript slice_to
write_send_failed post id error_code =
    write_lines
      (write_messages post (is_processing_id id)
        (λ m. record m { status = failed; error_code = some (slice_to 64 error_code) }))
      (exists_row (is_processing_id id) post.messages) id (λ l. record l { status = line_failed })

unfoldable pub message_failed : Post → ℕ → Text → Result Post
unfolding write_send_failed assert_outbound_message_transition
message_failed post id error_code = do
  next ← assert_outbound_message_transition processing mark_failed
  ok (write_send_failed post id error_code)
