-- ===== src/Outbox/Worker.antt =====
-- apps/api/src/modules/whatsapp/outbox-worker.ts. WhatsApp's answers, the storages and the calls to the
-- database that throw are parameters (Client). Metrics and the texts of incidents are left out.
use automatizacion_wh.Common.{
  ℕ, Bool, true, false, Option, none, some, List, [], ◌∷◌, Text, codes, ok, err, if◌then◌else◌,
}
use automatizacion_wh.Outbox.Post.{MimeType, Post}
use automatizacion_wh.Outbox.Claim.{
  ClaimedOutboundMessage, claimed_text, claimed_document, claimed_image, claim_next_message,
  authorize_document_send, message_sent, message_failed,
}

-- A call of `sendText`, `sendImage` or `sendDocument`, with the message that it is made for.
pub data Send : Type 0 where
  send_text : ℕ → Text → Text → Send
  send_image : ℕ → Text → Text → Option MimeType → Text → Send
  send_document : ℕ → Text → Text → Text → Text → Send

-- What such a call or a read returns, or the name of the error that it throws.
pub data SendOutcome : Type 0 where
  returns : Text → SendOutcome
  throws : Text → SendOutcome

-- A storage that is not configured is `none`; `sends_documents` says that the client has the optional
-- method. A write of the database that throws may have been committed before.
pub record Client : Type 0 where
  pub send : Send → SendOutcome
  pub sends_documents : Bool
  pub photo_storage : Option (Text → SendOutcome)
  pub document_storage : Option (Text → SendOutcome)
  pub first_authorize_throws : Option Text
  pub second_authorize_throws : Option Text
  pub sent_throws : Option Text
  pub sent_commits : Bool
  pub failed_throws : Bool
  pub incident_throws : Bool

-- The times of the claim and of the two authorisations.
pub record Clock : Type 0 where
  pub claims : ℕ
  pub authorizes : ℕ
  pub authorizes_again : ℕ

-- What a run leaves: the tables, the call to WhatsApp if there was one, the messages for which it asked
-- for an incident, and whether `runOnce` returned true, false, or threw (`none`).
pub record OutboxRan : Type 0 where
  pub post : Post
  pub call : Option Send
  pub incidents : List ℕ
  pub returned : Option Bool

-- The `catch`. What `markFailed` or the incident throws leaves the method.
unfoldable pub fail_send : Client → Post → Option Send → ℕ → Text → OutboxRan
fail_send client post call id name = elim (message_failed post id name) [
  | ok post' ↦
      if client.failed_throws
      then record { post = post; call = call; incidents = []; returned = none }
      else record {
        post = post';
        call = call;
        incidents = id ∷ [];
        returned = if client.incident_throws then none else some true;
      }
  | err e ↦ record { post = post; call = call; incidents = []; returned = none }
]

-- `markSent`, after which the run is over.
unfoldable pub settle_sent : Client → Post → Option Send → ℕ → Text → Option Text → OutboxRan
unfolding fail_send
settle_sent client post call id whatsapp_message_id none =
    elim (message_sent post id whatsapp_message_id) [
      | ok post' ↦ record { post = post'; call = call; incidents = []; returned = some true }
      | err e ↦ fail_send client post call id (codes "Error")
    ]
settle_sent client post call id whatsapp_message_id (some name) =
    elim (message_sent post id whatsapp_message_id) [
      | ok post' ↦ fail_send client (if client.sent_commits then post' else post) call id name
      | err e ↦ fail_send client post call id (codes "Error")
    ]

unfoldable pub settle_send : Client → Post → Send → ℕ → SendOutcome → OutboxRan
unfolding settle_sent fail_send
settle_send client post call id (returns whatsapp_message_id) =
    settle_sent client post (some call) id whatsapp_message_id client.sent_throws
settle_send client post call id (throws name) = fail_send client post (some call) id name

unfoldable pub hand_over : Client → Post → ℕ → Send → OutboxRan
unfolding settle_send
hand_over client post id call = settle_send client post call id (client.send call)

-- The read of a medium, and what is sent with its bytes.
unfoldable pub with_bytes : Client → Post → ℕ → SendOutcome → (Text → OutboxRan) → OutboxRan
unfolding fail_send
with_bytes client post id (returns bytes) next = next bytes
with_bytes client post id (throws name) next = fail_send client post none id name

-- One authorisation of a document. Without it the run is over: the message is cancelled.
unfoldable pub when_authorized :
    Client → ℕ → Post → ℕ → Option Text → (Post → OutboxRan) → OutboxRan
unfolding fail_send
when_authorized client now post id (some name) next = fail_send client post none id name
when_authorized client now post id none next = elim (authorize_document_send now post id) [
  | err e ↦ fail_send client post none id (codes "Error")
  | ok (post', allowed) ↦
      if allowed
      then next post'
      else record { post = post'; call = none; incidents = []; returned = some true }
]

unfoldable pub send_claimed_document :
    Client → Clock → Post → ℕ → Text → Text → Text → Option (Text → SendOutcome) → OutboxRan
unfolding fail_send when_authorized with_bytes hand_over
send_claimed_document client clock post id phone body key none =
    fail_send client post none id (codes "Error")
send_claimed_document client clock post id phone body key (some read) =
    if client.sends_documents
    then when_authorized client clock.authorizes post id client.first_authorize_throws (λ post₁.
      with_bytes client post₁ id (read key) (λ bytes.
        when_authorized client clock.authorizes_again post₁ id client.second_authorize_throws
          (λ post₂.
            hand_over client post₂ id
              (send_document id phone bytes (codes "guia-de-envio.pdf") body))))
    else fail_send client post none id (codes "Error")

unfoldable pub send_claimed_image :
    Client
    → Post
    → ℕ
    → Text
    → Text
    → Text
    → Option MimeType
    → Option (Text → SendOutcome)
    → OutboxRan
unfolding fail_send with_bytes hand_over
send_claimed_image client post id phone body key mime none =
    fail_send client post none id (codes "Error")
send_claimed_image client post id phone body key mime (some read) =
    with_bytes client post id (read key)
      (λ bytes. hand_over client post id (send_image id phone bytes mime body))

unfoldable pub send_claimed : Client → Clock → Post → ClaimedOutboundMessage → OutboxRan
unfolding hand_over send_claimed_document send_claimed_image
send_claimed client clock post (claimed_text id phone body) =
    hand_over client post id (send_text id phone body)
send_claimed client clock post (claimed_document id phone body key) =
    send_claimed_document client clock post id phone body key client.document_storage
send_claimed client clock post (claimed_image id phone body key mime) =
    send_claimed_image client post id phone body key mime client.photo_storage

unfoldable pub run_outbox_claimed :
    Client → Clock → Post × Option ClaimedOutboundMessage → OutboxRan
unfolding send_claimed
run_outbox_claimed client clock (post, none) = record {
  post = post;
  call = none;
  incidents = [];
  returned = some false;
}
run_outbox_claimed client clock (post, some message) = send_claimed client clock post message

-- `runOnce`, with nothing between its statements.
unfoldable pub run_outbox_once : (ℕ → Bool) → Client → Clock → Post → OutboxRan
unfolding run_outbox_claimed
run_outbox_once locked client clock post =
    run_outbox_claimed client clock (claim_next_message locked clock.claims post)
