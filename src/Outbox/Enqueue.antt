-- ===== src/Outbox/Enqueue.antt =====
-- The methods of apps/api/src/modules/whatsapp/postgres-outbound-repository.ts that queue a message.
use automatizacion_wh.Common.{
  ℕ, Bool, false, not, ◌&&◌, ◌||◌, Option, none, some, List, ◌∷◌, Text, Result, ok, err, failure,
  ◌>>=◌, ◌>>◌, guard, ◌==◌, if◌then◌else◌, is_some, or_else, same_number, text_eq, select_one,
  exists_row,
}
use automatizacion_wh.Database.{Customer}
use automatizacion_wh.Order.Validation.{normalize_colombian_phone}
use automatizacion_wh.Outbox.State.{pending}
use automatizacion_wh.Outbox.Post.{
  Source, bot, MessageType, text, image, document, MimeType, pdf, OutboundMessage, TranscriptLine,
  line_queued, Post, is_message, is_keyed, is_conversation,
}

-- A conversation joined with its customer.
pub record Linked : Type 0 where
  pub customer_phone : Text
  pub customer_id : Option ℕ
  pub profile_phone : Option Text

abbrev is_profile : ℕ → Customer → Bool
is_profile id c = c.id == id

abbrev phone_of : Option Customer → Option Text
phone_of none = none
phone_of (some c) = c.normalized_phone

abbrev profile_phone_of : Post → Option ℕ → Option Text
profile_phone_of post none = none
profile_phone_of post (some id) = phone_of (select_one (is_profile id) post.customers)

unfoldable pub linked_conversation : Post → ℕ → Option Linked
linked_conversation post conversation_id =
    elim (select_one (is_conversation conversation_id) post.conversations) [
      | none ↦ none
      | some c ↦ some (record {
        customer_phone = c.customer_phone;
        customer_id = c.customer_id;
        profile_phone = profile_phone_of post c.customer_id;
      })
    ]

-- Normalised one after the other: what the first throws leaves both as they are.
unfoldable pub same_phone : Text → Text → Bool
same_phone requested current = elim (normalize_colombian_phone requested) [
  | err e ↦ text_eq current requested
  | ok number ↦ elim (normalize_colombian_phone current) [
    | err e ↦ text_eq current number
    | ok other ↦ text_eq other number
  ]
]

abbrev same_customer : Option Linked → Linked → Bool
same_customer none current = false
same_customer (some linked) current = same_number current.customer_id linked.customer_id

-- The test on the row that is read under the locks, with the one that was read before them.
unfoldable pub identity_kept : Text → Option Linked → Option Linked → Bool
unfolding same_phone
identity_kept customer_phone linked none = false
identity_kept customer_phone linked (some current) =
    same_customer linked current
    && same_phone customer_phone current.customer_phone
    && (not (is_some current.customer_id) || is_some current.profile_phone)

-- `before` are the tables before the locks were taken.
unfoldable pub lock_outbound_identity : Post → Post → Text → Option ℕ → Result (Unit {0})
unfolding identity_kept linked_conversation
lock_outbound_identity before post customer_phone none = ok tt
lock_outbound_identity before post customer_phone (some conversation_id) =
    guard
      (identity_kept customer_phone (linked_conversation before conversation_id)
        (linked_conversation post conversation_id))
      (failure "identity_changed")

-- What a caller asks to send, and the clock and the random key of the insert.
pub record Draft : Type 0 where
  pub new_id : ℕ
  pub now : ℕ
  pub conversation_id : Option ℕ
  pub customer_phone : Text
  pub idempotency_key : Text
  pub source : Source
  pub message_type : MessageType
  pub text_body : Text
  pub media_storage_key : Option Text
  pub media_mime_type : Option MimeType

abbrev pub queued_message : Draft → OutboundMessage
queued_message d = record {
  id = d.new_id;
  conversation_id = d.conversation_id;
  idempotency_key = d.idempotency_key;
  customer_phone = d.customer_phone;
  source = d.source;
  message_type = d.message_type;
  text_body = some d.text_body;
  media_storage_key = d.media_storage_key;
  media_mime_type = d.media_mime_type;
  status = pending;
  attempt_count = 0;
  whatsapp_message_id = none;
  error_code = none;
  expires_at = none;
  created_at = d.now;
}

abbrev pub queued_line : Draft → Option ℕ → List TranscriptLine → List TranscriptLine
queued_line d none lines = lines
queued_line d (some conversation_id) lines =
    record {
      conversation_id = conversation_id;
      outbound_message_id = some d.new_id;
      provider_message_id = none;
      source = d.source;
      message_type = d.message_type;
      text_body = some d.text_body;
      media_storage_key = d.media_storage_key;
      media_mime_type = d.media_mime_type;
      status = line_queued;
    }
    ∷ lines

-- The insert and its transcript line. It does nothing where the key is taken; the primary key refuses
-- a random key that is taken.
unfoldable pub insert_outbound : Post → Draft → Result (Post × Option ℕ)
insert_outbound post d =
    if exists_row (is_keyed d.idempotency_key) post.messages
    then ok (post, none)
    else if exists_row (is_message d.new_id) post.messages
    then err (failure "whatsapp_outbound_messages_pkey")
    else ok (
      record post {
        messages = queued_message d ∷ post.messages;
        transcript = queued_line d d.conversation_id post.transcript;
      },
      some d.new_id,
    )

abbrev id_of : Option OutboundMessage → Result ℕ
id_of none = err (failure "Outbound enqueue failed")
id_of (some m) = ok m.id

-- The id of the inserted row, or of the one that has the key.
unfoldable pub or_existing : Text → Post × Option ℕ → Result (Post × ℕ)
or_existing key (post, some id) = ok (post, id)
or_existing key (post, none) =
    id_of (select_one (is_keyed key) post.messages) >>= λ id. ok (post, id)

-- The values of the three kinds of messages.
abbrev pub text_draft : ℕ → ℕ → Option ℕ → Text → Text → Text → Option Source → Draft
text_draft new_id now conversation_id customer_phone body key source = record {
  new_id = new_id;
  now = now;
  conversation_id = conversation_id;
  customer_phone = customer_phone;
  idempotency_key = key;
  source = or_else source bot;
  message_type = text;
  text_body = body;
  media_storage_key = none;
  media_mime_type = none;
}

abbrev pub image_draft :
    ℕ → ℕ → Option ℕ → Text → Text → Text → MimeType → Text → Option Source → Draft
image_draft new_id now conversation_id customer_phone caption storage_key mime key source = record {
  new_id = new_id;
  now = now;
  conversation_id = conversation_id;
  customer_phone = customer_phone;
  idempotency_key = key;
  source = or_else source bot;
  message_type = image;
  text_body = caption;
  media_storage_key = some storage_key;
  media_mime_type = some mime;
}

abbrev pub document_draft : ℕ → ℕ → ℕ → Text → Text → Text → Text → Draft
document_draft new_id now conversation_id customer_phone storage_key caption key = record {
  new_id = new_id;
  now = now;
  conversation_id = some conversation_id;
  customer_phone = customer_phone;
  idempotency_key = key;
  source = bot;
  message_type = document;
  text_body = caption;
  media_storage_key = some storage_key;
  media_mime_type = some pdf;
}

unfoldable pub insert_text_for_locked_identity :
    Post → ℕ → ℕ → Option ℕ → Text → Text → Text → Option Source → Result (Post × ℕ)
unfolding insert_outbound or_existing
insert_text_for_locked_identity post new_id now conversation_id customer_phone body key source =
    insert_outbound post (text_draft new_id now conversation_id customer_phone body key source)
    >>= or_existing key

unfoldable pub enqueue_text :
    Post → Post → ℕ → ℕ → Option ℕ → Text → Text → Text → Option Source → Result (Post × ℕ)
unfolding lock_outbound_identity insert_text_for_locked_identity
enqueue_text before post new_id now conversation_id customer_phone body key source =
    lock_outbound_identity before post customer_phone conversation_id
    >> insert_text_for_locked_identity post new_id now conversation_id customer_phone body key
        source

-- The text is the caption.
unfoldable pub enqueue_image :
    Post
    → Post
    → ℕ
    → ℕ
    → Option ℕ
    → Text
    → Text
    → Text
    → MimeType
    → Text
    → Option Source
    → Result (Post × ℕ)
unfolding lock_outbound_identity insert_outbound or_existing
enqueue_image before post new_id now conversation_id customer_phone caption storage_key mime key
      source =
    lock_outbound_identity before post customer_phone conversation_id
    >> (insert_outbound post (
          image_draft new_id now conversation_id customer_phone caption storage_key mime key source)
        >>= or_existing key)

-- The result is nothing where the key is taken.
unfoldable pub enqueue_document :
    Post → Post → ℕ → ℕ → ℕ → Text → Text → Text → Text → Result (Post × Option ℕ)
unfolding lock_outbound_identity insert_outbound
enqueue_document before post new_id now conversation_id customer_phone storage_key caption key =
    lock_outbound_identity before post customer_phone (some conversation_id)
    >> insert_outbound post
        (document_draft new_id now conversation_id customer_phone storage_key caption key)
