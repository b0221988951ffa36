-- ===== src/Outbox/Control.antt =====
-- `takeControl` and `releaseControl` of
-- apps/api/src/modules/conversations/postgres-conversation-admin-repository.ts: the owner takes over a
-- conversation and gives it back.
use automatizacion_wh.Common.{ℕ, Bool, ◌&&◌, if◌then◌else◌, is_number, update_where, exists_row}
use automatizacion_wh.Outbox.State.{cancelled}
use automatizacion_wh.Outbox.Post.{
  OutboundMessage, line_cancelled, Mode, bot_mode, human_mode, Post, is_conversation,
  is_pending_message, is_bot, shows,
}

abbrev pub is_queued_by_bot : ℕ → OutboundMessage → Bool
is_queued_by_bot conversation_id m =
    is_number m.conversation_id conversation_id && is_pending_message m.status && is_bot m.source

unfoldable pub set_mode : Post → ℕ → Mode → Post
set_mode post conversation_id mode = record post {
  conversations =
      update_where (is_conversation conversation_id) (λ c. record c { mode = mode })
        post.conversations;
}

unfoldable pub cancel_queued : Post → ℕ → Post
cancel_queued post conversation_id = record post {
  messages =
      update_where (is_queued_by_bot conversation_id) (λ m. record m { status = cancelled })
        post.messages;
  transcript =
      update_where
        (λ l. exists_row (λ m. is_queued_by_bot conversation_id m && shows m.id l) post.messages)
        (λ l. record l { status = line_cancelled }) post.transcript;
}

unfoldable pub take_control : Post → ℕ → Post
unfolding set_mode cancel_queued
take_control post conversation_id =
    if exists_row (is_conversation conversation_id) post.conversations
    then cancel_queued (set_mode post conversation_id human_mode) conversation_id
    else post

unfoldable pub release_control : Post → ℕ → Post
unfolding set_mode
release_control post conversation_id =
    if exists_row (is_conversation conversation_id) post.conversations
    then set_mode post conversation_id bot_mode
    else post
