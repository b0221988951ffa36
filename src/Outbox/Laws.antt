-- ===== src/Outbox/Laws.antt =====
-- What the methods of apps/api/src/modules/whatsapp/postgres-outbound-repository.ts do to the statuses
-- of the messages.
use automatizacion_wh.Common.{
  ℕ, ◌≡◌, refl, ap, ◌∙◌, ◌⊎◌, inl, inr, Bool, true, false, ◌&&◌, some, List, [], ◌∷◌, Text, ◌==◌,
  Bool-cases, update_where, exists_row, exists_row-update_where, All, All-update_where, arith,
}
use automatizacion_wh.Outbox.State.{
  OutboundMessageStatus, processing, sent, failed, cancelled, OutboundMessageAction, mark_sent,
  mark_failed, cancel, outbound_transitions,
}
use automatizacion_wh.Outbox.Post.{
  OutboundMessage, Post, is_message, is_conversation, is_pending_message, is_processing_message,
  write_messages, write_transcript,
}
use automatizacion_wh.Outbox.Claim.{
  is_barred, cancel_barred, cancel_document, write_sent, write_send_failed,
}
use automatizacion_wh.Outbox.Control.{set_mode, cancel_queued, take_control, release_control}

-- The row keeps its status or moves along the table by the action, and keeps its keys.
abbrev pub Moved : OutboundMessageAction → OutboundMessage → OutboundMessage → Type 0
Moved a m n =
    (n.id ≡ m.id)
    × (n.idempotency_key ≡ m.idempotency_key)
    × ((n.status ≡ m.status) ⊎ (outbound_transitions m.status a ≡ some n.status))

pub data MovedAll (a : OutboundMessageAction)
    : List OutboundMessage → List OutboundMessage → Type 0 where
  no_messages : MovedAll a [] []
  next_message :
      {m n : OutboundMessage} {ms ns : List OutboundMessage}
      → Moved a m n
      → MovedAll a ms ns
      → MovedAll a (m ∷ ms) (n ∷ ns)

same-MovedAll : (a : OutboundMessageAction) (ms : List OutboundMessage) → MovedAll a ms ms
same-MovedAll a [] = no_messages
same-MovedAll a (m ∷ ms) = next_message (refl, refl, inl refl) (same-MovedAll a ms)

update-MovedAll :
    (a : OutboundMessageAction) (p : OutboundMessage → Bool) (f : OutboundMessage → OutboundMessage)
    (ms : List OutboundMessage)
    → ((m : OutboundMessage) → p m ≡ true → Moved a m (f m))
    → MovedAll a ms (update_where p f ms)
unfolding update_where
update-MovedAll a p f [] h = no_messages
update-MovedAll a p f (m ∷ ms) h = elim (Bool-cases (p m)) [
  | inl hit ↦ rw hit (next_message (h m hit) (update-MovedAll a p f ms h))
  | inr miss ↦ rw miss (next_message (refl, refl, inl refl) (update-MovedAll a p f ms h))
]

-- A test that asks for the status `processing`, and an action that the table has there.
from_processing :
    (b : Bool) (s t : OutboundMessageStatus) (a : OutboundMessageAction)
    → outbound_transitions processing a ≡ some t
    → (b && is_processing_message s) ≡ true
    → outbound_transitions s a ≡ some t
from_processing b s t a next h = ground arith

from_pending :
    (s : OutboundMessageStatus)
    → is_pending_message s ≡ true
    → outbound_transitions s cancel ≡ some cancelled
unfolding outbound_transitions
from_pending s h = ground arith

sent-MovedAll :
    (post : Post) (id : ℕ) (whatsapp_message_id : Text)
    → MovedAll mark_sent post.messages (write_sent post id whatsapp_message_id).messages
unfolding write_sent write_messages write_transcript outbound_transitions
sent-MovedAll post id w =
    update-MovedAll mark_sent _ _ post.messages
      λ m h. (refl, refl, inr (from_processing (is_message id m) m.status sent mark_sent refl h))

failed-MovedAll :
    (post : Post) (id : ℕ) (error_code : Text)
    → MovedAll mark_failed post.messages (write_send_failed post id error_code).messages
unfolding write_send_failed write_messages write_transcript outbound_transitions
failed-MovedAll post id e =
    update-MovedAll mark_failed _ _ post.messages λ m h.
      (refl, refl, inr (from_processing (is_message id m) m.status failed mark_failed refl h))

left_true : (a b : Bool) → (a && b) ≡ true → a ≡ true
left_true a b e = ground arith

document-MovedAll :
    (post : Post) (id : ℕ) → MovedAll cancel post.messages (cancel_document post id).messages
unfolding cancel_document write_messages write_transcript outbound_transitions
document-MovedAll post id = update-MovedAll cancel _ _ post.messages λ m h. (
  refl,
  refl,
  inr (from_processing (is_message id m) m.status cancelled cancel refl (ground arith)),
)

barred-MovedAll :
    (now : ℕ) (post : Post) → MovedAll cancel post.messages (cancel_barred now post).messages
unfolding cancel_barred is_barred
barred-MovedAll now post =
    update-MovedAll cancel _ _ post.messages
      λ m h. (refl, refl, inr (from_pending m.status (ground arith)))

queued-MovedAll :
    (post : Post) (conversation_id : ℕ)
    → MovedAll cancel post.messages (cancel_queued post conversation_id).messages
unfolding cancel_queued
queued-MovedAll post conversation_id =
    update-MovedAll cancel _ _ post.messages
      λ m h. (refl, refl, inr (from_pending m.status (ground arith)))

-- The writes of a message's outcome and the cancellations, before a claim, at the authorisation of a
-- document and when the owner takes over, move each message along the table of transitions or leave
-- its status, and keep its keys.
pub marks_follow_outbound_table :
    (now : ℕ) (post : Post) (id : ℕ) (value : Text)
    → MovedAll mark_sent post.messages (write_sent post id value).messages
      × MovedAll mark_failed post.messages (write_send_failed post id value).messages
      × MovedAll cancel post.messages (cancel_document post id).messages
      × MovedAll cancel post.messages (cancel_barred now post).messages
      × MovedAll cancel post.messages (cancel_queued post id).messages
marks_follow_outbound_table now post id value = (
  sent-MovedAll post id value,
  failed-MovedAll post id value,
  document-MovedAll post id,
  barred-MovedAll now post,
  queued-MovedAll post id,
)

-- The message exists, and is past its time in the queue.
abbrev pub Begun : ℕ → List OutboundMessage → Type 0
Begun i ms =
    (exists_row (is_message i) ms ≡ true)
    × All (λ m. is_message i m ≡ true → is_pending_message m.status ≡ false) ms

-- An update that keeps ids and puts no message back into the queue.
pub update-Begun :
    (i : ℕ) (p : OutboundMessage → Bool) (f : OutboundMessage → OutboundMessage)
    (ms : List OutboundMessage)
    → ((m : OutboundMessage) → (f m).id ≡ m.id)
    → ((m : OutboundMessage) → is_pending_message (f m).status ≡ false)
    → Begun i ms
    → Begun i (update_where p f ms)
update-Begun i p f ms same keep (there, begun) = (
  exists_row-update_where (is_message i) p f ms (λ m. ap (λ n. n == i) (same m)) ∙ there,
  All-update_where (λ m. is_message i m ≡ true → is_pending_message m.status ≡ false) p f ms
      (λ m h old e. keep m) begun,
)

pub sent-Begun :
    (i : ℕ) (post : Post) (id : ℕ) (w : Text)
    → Begun i post.messages
    → Begun i (write_sent post id w).messages
unfolding write_sent write_messages write_transcript
sent-Begun i post id w b = update-Begun i _ _ post.messages (λ m. refl) (λ m. refl) b

pub failed-Begun :
    (i : ℕ) (post : Post) (id : ℕ) (e : Text)
    → Begun i post.messages
    → Begun i (write_send_failed post id e).messages
unfolding write_send_failed write_messages write_transcript
failed-Begun i post id e b = update-Begun i _ _ post.messages (λ m. refl) (λ m. refl) b

pub document-Begun :
    (i : ℕ) (post : Post) (id : ℕ)
    → Begun i post.messages
    → Begun i (cancel_document post id).messages
unfolding cancel_document write_messages write_transcript
document-Begun i post id b = update-Begun i _ _ post.messages (λ m. refl) (λ m. refl) b

pub barred-Begun :
    (i now : ℕ) (post : Post) → Begun i post.messages → Begun i (cancel_barred now post).messages
unfolding cancel_barred
barred-Begun i now post b = update-Begun i _ _ post.messages (λ m. refl) (λ m. refl) b

pub take_control-Begun :
    (i : ℕ) (post : Post) (conversation_id : ℕ)
    → Begun i post.messages
    → Begun i (take_control post conversation_id).messages
unfolding take_control cancel_queued set_mode
take_control-Begun i post k b =
    elim (Bool-cases (exists_row (is_conversation k) post.conversations)) [
      | inl there ↦ rw there (update-Begun i _ _ post.messages (λ m. refl) (λ m. refl) b)
      | inr missing ↦ rw missing b
    ]

pub release_control-Begun :
    (i : ℕ) (post : Post) (conversation_id : ℕ)
    → Begun i post.messages
    → Begun i (release_control post conversation_id).messages
unfolding release_control set_mode
release_control-Begun i post k b =
    elim (Bool-cases (exists_row (is_conversation k) post.conversations)) [
      | inl there ↦ rw there b
      | inr missing ↦ rw missing b
    ]
