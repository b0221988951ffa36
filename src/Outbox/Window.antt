-- ===== src/Outbox/Window.antt =====
-- A document leaves only inside the service window (`sendDocument` of
-- apps/api/src/modules/whatsapp/outbox-worker.ts).
use automatizacion_wh.Common.{
  ℕ, ◌+◌, ◌<◌, ◌≡◌, refl, sym, subst, inl, inr, Bool, true, ◌&&◌, Option, none, some, Text, codes,
  Bool-cases, exists_row-select_one, select_one-Mem, Memᴰ, arith,
}
use automatizacion_wh.Outbox.State.{
  processing, assert_outbound_message_transition, outbound_transitions,
}
use automatizacion_wh.Outbox.Post.{
  MimeType, Post, OutboundMessage, WhatsappConversation, document, conversation_of,
  service_window_ms,
}
use automatizacion_wh.Outbox.Claim.{
  ClaimedOutboundMessage, claimed_text, claimed_document, claimed_image, may_send_document,
  in_window, is_processing_document, authorize_document_send, message_sent, message_failed,
  claim_next_message,
}
use automatizacion_wh.Outbox.Worker.{
  Send, send_document, SendOutcome, returns, throws, Client, Clock, OutboxRan, fail_send,
  settle_sent, settle_send, hand_over, with_bytes, when_authorized, send_claimed_document,
  send_claimed_image, send_claimed, run_outbox_claimed, run_outbox_once,
}

-- The document of the call may be sent at that time.
abbrev pub InWindow : ℕ → Post → Option Send → Type 0
InWindow now post (some (send_document id phone bytes filename caption)) =
    may_send_document now post id ≡ true
InWindow now post _ = Unit

module _ (client : Client) where
  fail-call :
      (post : Post) (call : Option Send) (id : ℕ) (name : Text)
      → (fail_send client post call id name).call ≡ call
  unfolding fail_send message_failed assert_outbound_message_transition outbound_transitions
  fail-call post call id name = elim (Bool-cases client.failed_throws) [
    | inl thrown ↦ rw thrown refl
    | inr written ↦ rw written refl
  ]

  settle_sent-call :
      (post : Post) (call : Option Send) (id : ℕ) (w : Text) (throw : Option Text)
      → (settle_sent client post call id w throw).call ≡ call
  unfolding settle_sent message_sent assert_outbound_message_transition outbound_transitions
  settle_sent-call post call id w none = refl
  settle_sent-call post call id w (some name) = fail-call _ call id name

  settle_send-call :
      (post : Post) (call : Send) (id : ℕ) (o : SendOutcome)
      → (settle_send client post call id o).call ≡ some call
  unfolding settle_send
  settle_send-call post call id (returns w) =
      settle_sent-call post (some call) id w client.sent_throws
  settle_send-call post call id (throws name) = fail-call post (some call) id name

  hand_over-call :
      (post : Post) (id : ℕ) (call : Send) → (hand_over client post id call).call ≡ some call
  unfolding hand_over
  hand_over-call post id call = settle_send-call post call id (client.send call)

  module _ (now : ℕ) (claimed : Post) where
    quiet :
        (post : Post) (id : ℕ) (name : Text)
        → InWindow now claimed (fail_send client post none id name).call
    quiet post id name = subst (InWindow now claimed) (sym (fail-call post none id name)) tt

    bytes-InWindow :
        (post : Post) (id : ℕ) (o : SendOutcome) (next : Text → OutboxRan)
        → ((bytes : Text) → InWindow now claimed (next bytes).call)
        → InWindow now claimed (with_bytes client post id o next).call
    unfolding with_bytes
    bytes-InWindow post id (returns bytes) next h = h bytes
    bytes-InWindow post id (throws name) next h = quiet post id name

    authorized-InWindow :
        (time : ℕ) (post : Post) (id : ℕ) (throw : Option Text) (next : Post → OutboxRan)
        → (may_send_document time post id ≡ true → InWindow now claimed (next post).call)
        → InWindow now claimed (when_authorized client time post id throw next).call
    unfolding when_authorized authorize_document_send assert_outbound_message_transition
        outbound_transitions
    authorized-InWindow time post id (some name) next h = quiet post id name
    authorized-InWindow time post id none next h =
        elim (Bool-cases (may_send_document time post id)) [
          | inl allowed ↦ rw allowed (h allowed)
          | inr refused ↦ rw refused tt
        ]

  document-InWindow :
      (clock : Clock) (post : Post) (id : ℕ) (phone body key : Text)
      (storage : Option (Text → SendOutcome))
      → InWindow clock.authorizes_again post
          (send_claimed_document client clock post id phone body key storage).call
  unfolding send_claimed_document
  document-InWindow clock post id phone body key none =
      quiet clock.authorizes_again post post id (codes "Error")
  document-InWindow clock post id phone body key (some read) =
      elim (Bool-cases client.sends_documents) [
        | inl can ↦ rw can (
            authorized-InWindow clock.authorizes_again post clock.authorizes post id
              client.first_authorize_throws _
              λ first. bytes-InWindow clock.authorizes_again post post id (read key) _ λ bytes.
                authorized-InWindow clock.authorizes_again post clock.authorizes_again post id
                  client.second_authorize_throws _
                  λ again.
                    subst (InWindow clock.authorizes_again post) (sym (hand_over-call post id _))
                      again)
        | inr cannot ↦ rw cannot (quiet clock.authorizes_again post post id (codes "Error"))
      ]

  image-InWindow :
      (now : ℕ) (post : Post) (id : ℕ) (phone body key : Text) (mime : Option MimeType)
      (storage : Option (Text → SendOutcome))
      → InWindow now post (send_claimed_image client post id phone body key mime storage).call
  unfolding send_claimed_image
  image-InWindow now post id phone body key mime none = quiet now post post id (codes "Error")
  image-InWindow now post id phone body key mime (some read) =
      bytes-InWindow now post post id (read key) _
        λ bytes. subst (InWindow now post) (sym (hand_over-call post id _)) tt

  claimed-InWindow :
      (clock : Clock) (post : Post) (c : ClaimedOutboundMessage)
      → InWindow clock.authorizes_again post (send_claimed client clock post c).call
  unfolding send_claimed
  claimed-InWindow clock post (claimed_text id phone body) =
      subst (InWindow clock.authorizes_again post) (sym (hand_over-call post id _)) tt
  claimed-InWindow clock post (claimed_document id phone body key) =
      document-InWindow clock post id phone body key client.document_storage
  claimed-InWindow clock post (claimed_image id phone body key mime) =
      image-InWindow clock.authorizes_again post id phone body key mime client.photo_storage

  run_claimed-InWindow :
      (clock : Clock) (claimed : Post × Option ClaimedOutboundMessage)
      → InWindow clock.authorizes_again claimed.0 (run_outbox_claimed client clock claimed).call
  unfolding run_outbox_claimed
  run_claimed-InWindow clock (post, none) = tt
  run_claimed-InWindow clock (post, some c) = claimed-InWindow clock post c

run_outbox_once-InWindow :
    (locked : ℕ → Bool) (client : Client) (clock : Clock) (post : Post)
    → InWindow clock.authorizes_again
        (claim_next_message locked clock.claims post).0
        (run_outbox_once locked client clock post).call
unfolding run_outbox_once
run_outbox_once-InWindow locked client clock post =
    run_claimed-InWindow client clock (claim_next_message locked clock.claims post)

-- A document that is ready to leave: it is being sent, and its customer wrote in time.
abbrev pub InTime : ℕ → Post → ℕ → OutboundMessage → Type 0
InTime now post id m =
    Memᴰ m post.messages
    × (m.id ≡ id)
    × (m.status ≡ processing)
    × (m.message_type ≡ document)
    × (c : WhatsappConversation) × (conversation_of post m ≡ some c)
    × (now < c.last_inbound_message_at + service_window_ms)

still_open :
    (now : ℕ) (o : Option WhatsappConversation)
    → in_window now o ≡ true
    → (c : WhatsappConversation) × (o ≡ some c)
      × (now < c.last_inbound_message_at + service_window_ms)
still_open now none e = cc
still_open now (some c) e = (c, refl, ground arith)

processing_document :
    (id : ℕ) (m : OutboundMessage)
    → is_processing_document id m ≡ true
    → (m.id ≡ id) × (m.status ≡ processing) × (m.message_type ≡ document)
processing_document id m e = ground arith

may_send_document-InTime :
    (now : ℕ) (post : Post) (id : ℕ)
    → may_send_document now post id ≡ true
    → (m : OutboundMessage) × InTime now post id m
unfolding may_send_document
may_send_document-InTime now post id e =
    let (m, found) = exists_row-select_one _ post.messages e in
    let (there, both) = select_one-Mem _ post.messages found in
    let (kept, in_reach) = both_true _ _ both in
    let (same, sending, kind) = processing_document id m kept in
    let (c, own, in_time) = still_open now (conversation_of post m) in_reach in
    (m, (there, same, sending, kind, c, own, in_time))
  where
    both_true : (a b : Bool) → (a && b) ≡ true → (a ≡ true) × (b ≡ true)
    both_true a b e = ground arith

-- A document that a run hands to WhatsApp is, once the run has claimed its message, a document in the
-- state `processing`, of a conversation whose customer wrote less than 24 hours before the second
-- authorisation, which follows the read of its bytes.
pub run_once-InWindow :
    (locked : ℕ → Bool) (client : Client) (clock : Clock) (post : Post) {id : ℕ}
    {phone bytes filename caption : Text}
    → (run_outbox_once locked client clock post).call
      ≡ some (send_document id phone bytes filename caption)
    → (m : OutboundMessage) × InTime clock.authorizes_again
        (claim_next_message locked clock.claims post).0
        id
        m
run_once-InWindow locked client clock post {id} e =
    may_send_document-InTime clock.authorizes_again _ id (
      subst (InWindow clock.authorizes_again (claim_next_message locked clock.claims post).0) e
        (run_outbox_once-InWindow locked client clock post))
