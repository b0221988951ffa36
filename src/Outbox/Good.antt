-- ===== src/Outbox/Good.antt =====
-- What a run of the worker (apps/api/src/modules/whatsapp/outbox-worker.ts) on a claimed message keeps
-- and asks.
use automatizacion_wh.Common.{ℕ, ◌≡◌, refl, inl, inr, Option, none, some, Text, codes, Bool-cases}
use automatizacion_wh.Outbox.State.{assert_outbound_message_transition, outbound_transitions}
use automatizacion_wh.Outbox.Post.{MimeType, Post}
use automatizacion_wh.Outbox.Claim.{
  ClaimedOutboundMessage, claimed_text, claimed_document, claimed_image, may_send_document,
  write_sent, authorize_document_send, message_sent, message_failed,
}
use automatizacion_wh.Outbox.Worker.{
  Send, send_text, send_image, send_document, SendOutcome, returns, throws, Client, Clock,
  OutboxRan, fail_send, settle_sent, settle_send, hand_over, with_bytes, when_authorized,
  send_claimed_document, send_claimed_image, send_claimed,
}
use automatizacion_wh.Outbox.Laws.{Begun, sent-Begun, failed-Begun, document-Begun}

-- The message that a call is made for.
abbrev pub send_id : Send → ℕ
send_id (send_text id phone body) = id
send_id (send_image id phone bytes mime caption) = id
send_id (send_document id phone bytes filename caption) = id

abbrev pub IsAbout : ℕ → Option Send → Type 0
IsAbout id none = Unit
IsAbout id (some s) = send_id s ≡ id

-- No message goes back into the queue, and a call is made for the claimed message only.
pub record Good (post : Post) (id : ℕ) (ran : OutboxRan) : Type 0 where
  pub keeps : (i : ℕ) → Begun i post.messages → Begun i ran.post.messages
  pub asks : IsAbout id ran.call

-- The id of a claimed message.
abbrev pub claimed_id : ClaimedOutboundMessage → ℕ
claimed_id (claimed_text id phone body) = id
claimed_id (claimed_document id phone body key) = id
claimed_id (claimed_image id phone body key mime) = id

module _ (client : Client) where
  pub fail-Good :
      (post : Post) (call : Option Send) (id : ℕ) (name : Text)
      → IsAbout id call
      → Good post id (fail_send client post call id name)
  unfolding fail_send message_failed assert_outbound_message_transition outbound_transitions
  fail-Good post call id name about = elim (Bool-cases client.failed_throws) [
    | inl thrown ↦ rw thrown (record { keeps = λ i b. b; asks = about })
    | inr written ↦
        rw written (record { keeps = λ i b. failed-Begun i post id name b; asks = about })
  ]

  -- A write before the outcome that puts no message back.
  pub after-Good :
      (post post₁ : Post) (id : ℕ) (ran : OutboxRan)
      → ((i : ℕ) → Begun i post.messages → Begun i post₁.messages)
      → Good post₁ id ran
      → Good post id ran
  after-Good post post₁ id ran keep good = record {
    keeps = λ i b. good.keeps i (keep i b);
    asks = good.asks;
  }

  settle_sent-Good :
      (post : Post) (call : Option Send) (id : ℕ) (w : Text) (throw : Option Text)
      → IsAbout id call
      → Good post id (settle_sent client post call id w throw)
  unfolding settle_sent message_sent assert_outbound_message_transition outbound_transitions
  settle_sent-Good post call id w none about = record {
    keeps = λ i b. sent-Begun i post id w b;
    asks = about;
  }
  settle_sent-Good post call id w (some name) about = elim (Bool-cases client.sent_commits) [
    | inl committed ↦ rw committed (
        after-Good post (write_sent post id w) id _ (λ i b. sent-Begun i post id w b)
          (fail-Good (write_sent post id w) call id name about))
    | inr undone ↦ rw undone (fail-Good post call id name about)
  ]

  settle_send-Good :
      (post : Post) (call : Send) (id : ℕ) (o : SendOutcome)
      → send_id call ≡ id
      → Good post id (settle_send client post call id o)
  unfolding settle_send
  settle_send-Good post call id (returns w) about =
      settle_sent-Good post (some call) id w client.sent_throws about
  settle_send-Good post call id (throws name) about = fail-Good post (some call) id name about

  hand_over-Good :
      (post : Post) (id : ℕ) (call : Send)
      → send_id call ≡ id
      → Good post id (hand_over client post id call)
  unfolding hand_over
  hand_over-Good post id call about = settle_send-Good post call id (client.send call) about

  with_bytes-Good :
      (post : Post) (id : ℕ) (o : SendOutcome) (next : Text → OutboxRan)
      → ((bytes : Text) → Good post id (next bytes))
      → Good post id (with_bytes client post id o next)
  unfolding with_bytes
  with_bytes-Good post id (returns bytes) next good = good bytes
  with_bytes-Good post id (throws name) next good = fail-Good post none id name tt

  authorized-Good :
      (now : ℕ) (post : Post) (id : ℕ) (throw : Option Text) (next : Post → OutboxRan)
      → ((post' : Post) → Good post' id (next post'))
      → Good post id (when_authorized client now post id throw next)
  unfolding when_authorized authorize_document_send assert_outbound_message_transition
      outbound_transitions
  authorized-Good now post id (some name) next good = fail-Good post none id name tt
  authorized-Good now post id none next good = elim (Bool-cases (may_send_document now post id)) [
    | inl allowed ↦ rw allowed (good post)
    | inr refused ↦ rw refused (record { keeps = λ i b. document-Begun i post id b; asks = tt })
  ]

  document-Good :
      (clock : Clock) (post : Post) (id : ℕ) (phone body key : Text)
      (storage : Option (Text → SendOutcome))
      → Good post id (send_claimed_document client clock post id phone body key storage)
  unfolding send_claimed_document
  document-Good clock post id phone body key none = fail-Good post none id (codes "Error") tt
  document-Good clock post id phone body key (some read) =
      elim (Bool-cases client.sends_documents) [
        | inl can ↦ rw can (
            authorized-Good clock.authorizes post id client.first_authorize_throws _ λ post₁.
              with_bytes-Good post₁ id (read key) _ λ bytes.
                authorized-Good clock.authorizes_again post₁ id client.second_authorize_throws _
                  λ post₂. hand_over-Good post₂ id _ refl)
        | inr cannot ↦ rw cannot (fail-Good post none id (codes "Error") tt)
      ]

  image-Good :
      (post : Post) (id : ℕ) (phone body key : Text) (mime : Option MimeType)
      (storage : Option (Text → SendOutcome))
      → Good post id (send_claimed_image client post id phone body key mime storage)
  unfolding send_claimed_image
  image-Good post id phone body key mime none = fail-Good post none id (codes "Error") tt
  image-Good post id phone body key mime (some read) =
      with_bytes-Good post id (read key) _ λ bytes. hand_over-Good post id _ refl

  pub send_claimed-Good :
      (clock : Clock) (post : Post) (c : ClaimedOutboundMessage)
      → Good post (claimed_id c) (send_claimed client clock post c)
  unfolding send_claimed
  send_claimed-Good clock post (claimed_text id phone body) = hand_over-Good post id _ refl
  send_claimed-Good clock post (claimed_document id phone body key) =
      document-Good clock post id phone body key client.document_storage
  send_claimed-Good clock post (claimed_image id phone body key mime) =
      image-Good post id phone body key mime client.photo_storage
