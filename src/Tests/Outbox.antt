-- ===== src/Tests/Outbox.antt =====
-- The messages of the shop of the tests.
use automatizacion_wh.Common.{
  ℕ, ◌≡◌, ◌≢◌, refl, Bool, true, false, none, some, [], ◌∷◌, codes, Result, ok, select_one,
  select_all, update_where, exists_row, first_by, text_eq, ◌==◌, AtMostOne, Memᴰ,
}
use automatizacion_wh.Outbox.State.{
  assert_outbound_message_transition, outbound_transitions, pending, mark_sent, mark_failed, cancel,
}
use automatizacion_wh.Outbox.Post.{
  OutboundMessage, bot, text, document, pdf, WhatsappConversation, bot_mode, Post, is_bot,
  write_messages,
}
use automatizacion_wh.Outbox.Enqueue.{
  enqueue_text, insert_text_for_locked_identity, insert_outbound, or_existing,
  lock_outbound_identity,
}
use automatizacion_wh.Outbox.Claim.{
  claim_next_message, cancel_barred, is_barred, candidate_message, is_sendable, claim_message,
  claimed_message, write_sent, write_send_failed, cancel_document, authorize_document_send,
  may_send_document, message_sent,
}
use automatizacion_wh.Outbox.Control.{cancel_queued, take_control, set_mode}
use automatizacion_wh.Outbox.Worker.{
  Client, Clock, returns, send_document, run_outbox_once, run_outbox_claimed, send_claimed,
  send_claimed_document, when_authorized, with_bytes, hand_over, settle_send, settle_sent,
}
use automatizacion_wh.Outbox.Laws.{MovedAll, marks_follow_outbound_table}
use automatizacion_wh.Outbox.Traffic.{runs, takes, pass_all}
use automatizacion_wh.Outbox.Once.{is_for, pass_all_once}
use automatizacion_wh.Outbox.Good.{claimed_id}
use automatizacion_wh.Outbox.Speaks.{MaySpeak, claim_next-MaySpeak, take_control_silences}
use automatizacion_wh.Outbox.Window.{InTime, run_once-InWindow}
use automatizacion_wh.Outbox.Keys.{enqueue_text_again}

abbrev greeting : OutboundMessage
greeting = record {
  id = 1;
  conversation_id = some 40;
  idempotency_key = codes "hola:1";
  customer_phone = codes "+573001112233";
  source = bot;
  message_type = text;
  text_body = some (codes "Hola");
  media_storage_key = none;
  media_mime_type = none;
  status = pending;
  attempt_count = 0;
  whatsapp_message_id = none;
  error_code = none;
  expires_at = none;
  created_at = 5;
}

abbrev talk : WhatsappConversation
talk = record {
  id = 40;
  customer_phone = codes "+573001112233";
  customer_id = none;
  mode = bot_mode;
  last_inbound_message_at = 4;
}

-- A message of the bot, and one without a conversation.
abbrev queue : Post
queue = record {
  messages =
      greeting
      ∷ record greeting { id = 2; conversation_id = none; idempotency_key = codes "aviso:1" }
      ∷ [];
  transcript = [];
  conversations = talk ∷ [];
  customers = [];
}

abbrev smooth_client : Client
smooth_client = record {
  send = λ s. returns (codes "wamid.1");
  sends_documents = true;
  photo_storage = none;
  document_storage = none;
  first_authorize_throws = none;
  second_authorize_throws = none;
  sent_throws = none;
  sent_commits = true;
  failed_throws = false;
  incident_throws = false;
}

abbrev clock : Clock
clock = record { claims = 10; authorizes = 11; authorizes_again = 12 }

abbrev no_locks : ℕ → Bool
no_locks id = false

pass_all_once_example :
    AtMostOne
      (is_for 1)
      (pass_all
        (record { post = queue; sends = [] })
        (runs no_locks smooth_client clock
          ∷ takes 40
          ∷ runs no_locks smooth_client clock
          ∷ [])).sends
pass_all_once_example =
    pass_all_once queue
      (runs no_locks smooth_client clock ∷ takes 40 ∷ runs no_locks smooth_client clock ∷ []) 1

marks_follow_outbound_table_example :
    MovedAll mark_sent queue.messages (write_sent queue 1 (codes "wamid.1")).messages
    × MovedAll mark_failed queue.messages (write_send_failed queue 1 (codes "wamid.1")).messages
    × MovedAll cancel queue.messages (cancel_document queue 1).messages
    × MovedAll cancel queue.messages (cancel_barred 10 queue).messages
    × MovedAll cancel queue.messages (cancel_queued queue 1).messages
marks_follow_outbound_table_example = marks_follow_outbound_table 10 queue 1 (codes "wamid.1")

claims :
    claim_next_message no_locks 10 queue
    ≡ ((claim_next_message no_locks 10 queue).0, some (claimed_message greeting))
unfolding claim_next_message cancel_barred is_barred candidate_message is_sendable claim_message
    write_messages update_where select_all select_one first_by exists_row
claims = refl

claim_next-MaySpeak_example :
    (m : OutboundMessage) × Memᴰ m queue.messages
    × (claimed_id (claimed_message greeting) ≡ m.id)
    × MaySpeak 10 queue m
claim_next-MaySpeak_example =
    claim_next-MaySpeak no_locks 10 queue (claim_next_message no_locks 10 queue).0 claims

abbrev notice : OutboundMessage
notice = record greeting { id = 2; conversation_id = none; idempotency_key = codes "aviso:1" }

claims_other :
    claim_next_message no_locks 10 (take_control queue 40)
    ≡ ((claim_next_message no_locks 10 (take_control queue 40)).0, some (claimed_message notice))
unfolding take_control set_mode cancel_queued claim_next_message cancel_barred is_barred
    candidate_message is_sendable claim_message write_messages update_where select_all select_one
    first_by exists_row
claims_other = refl

there : exists_row (λ c. c.id == 40) queue.conversations ≡ true
unfolding exists_row
there = refl

take_control_silences_example :
    (m : OutboundMessage) × Memᴰ m (take_control queue 40).messages
    × (claimed_id (claimed_message notice) ≡ m.id)
    × (is_bot m.source ≡ true → m.conversation_id ≢ some 40)
take_control_silences_example =
    take_control_silences no_locks 10 queue
      (claim_next_message no_locks 10 (take_control queue 40)).0 40 there claims_other

-- The guide of an order, to a customer who wrote some minutes ago.
abbrev letter : OutboundMessage
letter = record greeting {
  idempotency_key = codes "guia:1";
  message_type = document;
  text_body = some (codes "Tu guia");
  media_storage_key = some (codes "guides/1");
  media_mime_type = some pdf;
}

abbrev mail : Post
mail = record queue { messages = letter ∷ [] }

abbrev reader : Client
reader = record smooth_client { document_storage = some (λ key. returns (codes "%PDF")) }

leaves :
    (run_outbox_once no_locks reader clock mail).call
    ≡ some (
        send_document 1
          (codes "+573001112233")
          (codes "%PDF")
          (codes "guia-de-envio.pdf")
          (codes "Tu guia"))
unfolding run_outbox_once run_outbox_claimed send_claimed send_claimed_document when_authorized
    authorize_document_send may_send_document assert_outbound_message_transition
    outbound_transitions with_bytes hand_over settle_send settle_sent message_sent
    claim_next_message cancel_barred is_barred candidate_message is_sendable claim_message
    write_messages update_where select_all select_one first_by exists_row
leaves = refl

run_once-InWindow_example :
    (m : OutboundMessage) × InTime 12 (claim_next_message no_locks 10 mail).0 1 m
run_once-InWindow_example = run_once-InWindow no_locks reader clock mail leaves

abbrev first_time : Result (Post × ℕ)
first_time =
    enqueue_text queue queue 7 20 none (codes "+573001112233") (codes "Gracias") (codes "gracias:1")
      none

abbrev after_first : Post
after_first = record queue {
  messages =
      record greeting {
        id = 7;
        conversation_id = none;
        idempotency_key = codes "gracias:1";
        text_body = some (codes "Gracias");
        created_at = 20;
      }
      ∷ queue.messages;
}

queues : first_time ≡ ok (after_first, 7)
unfolding enqueue_text insert_text_for_locked_identity insert_outbound or_existing
    lock_outbound_identity exists_row text_eq
queues = refl

enqueue_text_again_example :
    enqueue_text after_first after_first 8 21 none
      (codes "+573001112233")
      (codes "Otra vez")
      (codes "gracias:1")
      none
    ≡ ok (after_first, 7)
enqueue_text_again_example =
    enqueue_text_again queue queue after_first 7 20 8 21 none (codes "+573001112233")
      (codes "Gracias") (codes "Otra vez") (codes "gracias:1") none none queues
