-- ===== src/Outbox/Speaks.antt =====
-- Which messages `claimNext` hands to the worker, and when a document is sent
-- (apps/api/src/modules/whatsapp/postgres-outbound-repository.ts, outbox-worker.ts).
use automatizacion_wh.Common.{
  ℕ, ◌≡◌, ◌≢◌, refl, ap, subst, ◌∙◌, ◌⊎◌, inl, inr, Bool, true, false, Option, none, some, List, [],
  ◌∷◌, Bool-cases, select_one, update_where, exists_row, Memᴰ, arith,
}
use automatizacion_wh.Outbox.Post.{
  OutboundMessage, Post, WhatsappConversation, human_mode, is_pending_message, is_bot, is_document,
  is_conversation, conversation_of,
}
use automatizacion_wh.Outbox.Claim.{
  ClaimedOutboundMessage, cancel_barred, in_window, bot_may_speak, is_sendable, claimed_message,
  claim_message, candidate_message, claim_next_message,
}
use automatizacion_wh.Outbox.Control.{set_mode, cancel_queued, take_control}
use automatizacion_wh.Outbox.Good.{claimed_id}
use automatizacion_wh.Outbox.Once.{candidate_message-Mem, claimed_message-id}

Mem-cases :
    {k : OutboundMessage} {ms : List OutboundMessage} {m : OutboundMessage}
    → Memᴰ m (k ∷ ms)
    → (m ≡ k) ⊎ Memᴰ m ms
Mem-cases (Memᴰ.head e) = inl e
Mem-cases (Memᴰ.tail rest) = inr rest

-- A member after an update was there before, or was written.
updated-Mem :
    (p : OutboundMessage → Bool) (f : OutboundMessage → OutboundMessage) (ms : List OutboundMessage)
    {m : OutboundMessage}
    → Memᴰ m (update_where p f ms)
    → Memᴰ m ms ⊎ ((n : OutboundMessage) × (m ≡ f n))
unfolding update_where
updated-Mem p f [] h = elim h [ ]
updated-Mem p f (n ∷ ms) {m} h = elim (Bool-cases (p n)) [
  | inl hit ↦ elim (Mem-cases (rw hit at h)) [
    | inl here ↦ inr (n, here)
    | inr rest ↦ by_tail (updated-Mem p f ms rest)
  ]
  | inr miss ↦ elim (Mem-cases (rw miss at h)) [
    | inl here ↦ inl (Memᴰ.head here)
    | inr rest ↦ by_tail (updated-Mem p f ms rest)
  ]
]
  where
    by_tail :
        Memᴰ m ms ⊎ ((k : OutboundMessage) × (m ≡ f k))
        → Memᴰ m (n ∷ ms) ⊎ ((k : OutboundMessage) × (m ≡ f k))
    by_tail (inl old) = inl (Memᴰ.tail old)
    by_tail (inr written) = inr written

-- A message that may go out: it waits, the bot does not speak into a conversation that the owner has
-- taken over, and a document goes to a customer who wrote in the last 24 hours.
abbrev pub MaySpeak : ℕ → Post → OutboundMessage → Type 0
MaySpeak now post m =
    (is_pending_message m.status ≡ true)
    × (is_bot m.source ≡ true → bot_may_speak (conversation_of post m) ≡ true)
    × (is_document m.message_type ≡ true → in_window now (conversation_of post m) ≡ true)

clash : {b : Bool} → b ≡ false → b ≡ true → ⊥
clash h e = cc

sendable-MaySpeak :
    (locked : ℕ → Bool) (now : ℕ) (post : Post) (m : OutboundMessage)
    → is_sendable locked now post m ≡ true
    → MaySpeak now post m
unfolding is_sendable
sendable-MaySpeak locked now post m e = (ground arith, (λ b. ground arith), (λ d. ground arith))

waiting-Mem :
    (now : ℕ) (post : Post) {m : OutboundMessage}
    → Memᴰ m (cancel_barred now post).messages
    → is_pending_message m.status ≡ true
    → Memᴰ m post.messages
unfolding cancel_barred
waiting-Mem now post member waits = elim (updated-Mem _ _ post.messages member) [
  | inl old ↦ old
  | inr (n, written) ↦
      absurd (no_longer (subst (λ x. is_pending_message x.status ≡ true) written waits))
]
  where
    no_longer : ¬ (false ≡ true)
    no_longer e = cc

candidate-MaySpeak :
    (locked : ℕ → Bool) (now : ℕ) (post : Post) {m : OutboundMessage}
    → candidate_message locked now (cancel_barred now post) ≡ some m
    → Memᴰ m post.messages × MaySpeak now post m
unfolding cancel_barred
candidate-MaySpeak locked now post e =
    let (member, sendable) = candidate_message-Mem locked now (cancel_barred now post) e in
    let may = sendable-MaySpeak locked now (cancel_barred now post) _ sendable in
    (waiting-Mem now post member may.0, may)

claimed_candidate :
    (post post' : Post) (o : Option OutboundMessage) {c : ClaimedOutboundMessage}
    → claim_message post o ≡ (post', some c)
    → (m : OutboundMessage) × (o ≡ some m) × (c ≡ claimed_message m)
unfolding claim_message
claimed_candidate post post' none e = cc
claimed_candidate post post' (some m) e = (m, refl, cc (e))

-- A message that is claimed was waiting in the queue; if it is the bot's, its conversation is not in the
-- owner's hands, and if it is a document, its conversation has a message of the customer from the last
-- 24 hours.
pub claim_next-MaySpeak :
    (locked : ℕ → Bool) (now : ℕ) (post post' : Post) {c : ClaimedOutboundMessage}
    → claim_next_message locked now post ≡ (post', some c)
    → (m : OutboundMessage) × Memᴰ m post.messages × (claimed_id c ≡ m.id) × MaySpeak now post m
unfolding claim_next_message
claim_next-MaySpeak locked now post post' e =
    let (m, found, same) = claimed_candidate (cancel_barred now post) post' _ e in
    let (member, may) = candidate-MaySpeak locked now post found in
    (m, member, ap claimed_id same ∙ claimed_message-id m, may)

human_select :
    (k : ℕ) (cs : List WhatsappConversation)
    → exists_row (is_conversation k) cs ≡ true
    → (c : WhatsappConversation) × (select_one
          (is_conversation k)
          (update_where (is_conversation k) (λ c. record c { mode = human_mode }) cs)
        ≡ some c)
      × (c.mode ≡ human_mode)
unfolding select_one update_where exists_row
human_select k [] e = absurd (cc)
human_select k (c ∷ cs) e = elim (Bool-cases (is_conversation k c)) [
  | inl hit ↦ (record c { mode = human_mode }, rw hit (simp (hit) refl), refl)
  | inr miss ↦
      let (d, found, human) = human_select k cs (rw miss at e) in
      (d, rw miss (simp (miss) found), human)
]

taken-silent :
    (post : Post) (k : ℕ) (m : OutboundMessage)
    → exists_row (is_conversation k) post.conversations ≡ true
    → m.conversation_id ≡ some k
    → bot_may_speak (conversation_of (take_control post k) m) ≡ false
unfolding take_control set_mode cancel_queued
taken-silent post k m there of_k =
    let (c, found, human) = human_select k post.conversations there in
    rw (there, of_k, found, human) refl

-- The bot is silent in a conversation that the owner has taken over: what is claimed right after is
-- another message than one of the bot for that conversation.
pub take_control_silences :
    (locked : ℕ → Bool) (now : ℕ) (post post' : Post) (k : ℕ) {c : ClaimedOutboundMessage}
    → exists_row (is_conversation k) post.conversations ≡ true
    → claim_next_message locked now (take_control post k) ≡ (post', some c)
    → (m : OutboundMessage) × Memᴰ m (take_control post k).messages
      × (claimed_id c ≡ m.id)
      × (is_bot m.source ≡ true → m.conversation_id ≢ some k)
take_control_silences locked now post post' k there e =
    let (m, member, same, may) = claim_next-MaySpeak locked now (take_control post k) post' e in
    (m, member, same, λ of_bot of_k. clash (taken-silent post k m there of_k) (may.1 of_bot))
