-- ===== src/Outbox/Once.antt =====
-- A message is handed to WhatsApp once at most (apps/api/src/modules/whatsapp/outbox-worker.ts and
-- postgres-outbound-repository.ts).
use automatizacion_wh.Common.{
  ℕ, ◌≡◌, refl, sym, ap, subst, ◌∙◌, ◌⊎◌, inl, inr, Bool, true, false, Option, none, some, List, [],
  ◌∷◌, Text, Result, ok, err, ◌>>=◌, ◌>>◌, ◌==◌, ==_iff, Bool-cases, Option-cases, select_all,
  select_one, update_where, exists_row, exists_row-update_where, All, AtMostOne, Memᴰ,
  select_all-Mem, first_by-Mem, arith,
}
use automatizacion_wh.Outbox.Post.{
  Source, MimeType, OutboundMessage, Post, is_message, is_pending_message, is_keyed, write_messages,
}
use automatizacion_wh.Outbox.Enqueue.{
  Draft, text_draft, image_draft, document_draft, lock_outbound_identity, insert_outbound,
  or_existing, insert_text_for_locked_identity, enqueue_text, enqueue_image, enqueue_document,
}
use automatizacion_wh.Outbox.Claim.{
  queued_before, is_sendable, cancel_barred, claimed_message, claim_message, candidate_message,
  claim_next_message,
}
use automatizacion_wh.Outbox.Control.{take_control, release_control}
use automatizacion_wh.Outbox.Worker.{
  Send, Client, Clock, OutboxRan, send_claimed, run_outbox_claimed, run_outbox_once,
}
use automatizacion_wh.Outbox.Laws.{
  Begun, update-Begun, barred-Begun, take_control-Begun, release_control-Begun,
}
use automatizacion_wh.Outbox.Traffic.{
  Mailroom, Traffic, runs, texts, images, documents, takes, releases, others, post_after, with_send,
  pass, pass_all,
}
use automatizacion_wh.Outbox.Good.{send_id, IsAbout, Good, claimed_id, send_claimed-Good}

abbrev pub is_for : ℕ → Send → Bool
is_for i s = send_id s == i

-- No call was made for the message, or one was and the message has left the queue.
abbrev Sparing : ℕ → Mailroom → Type 0
Sparing i room =
    AtMostOne (is_for i) room.sends
    × ((exists_row (is_for i) room.sends ≡ false) ⊎ Begun i room.post.messages)

keeps-Sparing :
    (i : ℕ) (room : Mailroom) (post : Post)
    → (Begun i room.post.messages → Begun i post.messages)
    → Sparing i room
    → Sparing i (record room { post = post })
keeps-Sparing i room post keep (once, inl never) = (once, inl never)
keeps-Sparing i room post keep (once, inr begun) = (once, inr (keep begun))

-- What holds of the tables that a result leaves.
abbrev Leaves {ℓ} : {A : Type ℓ} → (Post → Type 0) → Result (Post × A) → Type 0
Leaves P (ok (post, a)) = P post
Leaves P (err e) = Unit

after-Leaves {ℓ} :
    {A : Type ℓ} (P : Post → Type 0) (post : Post) (r : Result (Post × A))
    → P post
    → Leaves P r
    → P (post_after post r)
after-Leaves P post (ok (post', a)) h l = l
after-Leaves P post (err e) h l = h

locked-Leaves {ℓ} :
    {A : Type ℓ} (P : Post → Type 0) (check : Result (Unit {0})) (r : Result (Post × A))
    → Leaves P r
    → Leaves P (check >> r)
locked-Leaves P (ok u) r l = l
locked-Leaves P (err e) r l = tt

existing-Leaves :
    (P : Post → Type 0) (key : Text) (r : Result (Post × Option ℕ))
    → Leaves P r
    → Leaves P (r >>= or_existing key)
unfolding or_existing
existing-Leaves P key (err e) l = tt
existing-Leaves P key (ok (post, some id)) l = l
existing-Leaves P key (ok (post, none)) l =
    elim (Option-cases (select_one (is_keyed key) post.messages)) [
      | inl missing ↦ rw missing tt
      | inr (m, found) ↦ rw found l
    ]

clash : {b : Bool} → b ≡ false → b ≡ true → ⊥
clash h e = cc

begun_elsewhere :
    (i n : ℕ) (ms : List OutboundMessage)
    → exists_row (is_message n) ms ≡ false
    → exists_row (is_message i) ms ≡ true
    → (n == i) ≡ false
begun_elsewhere i n ms free there = elim (Bool-cases (n == i)) [
  | inl same ↦
      absurd
        (clash (subst (λ k. exists_row (is_message k) ms ≡ false) ((==_iff n i).0 same) free) there)
  | inr other ↦ other
]

insert-Leaves :
    (i : ℕ) (post : Post) (d : Draft)
    → Begun i post.messages
    → Leaves (λ p. Begun i p.messages) (insert_outbound post d)
unfolding insert_outbound exists_row
insert-Leaves i post d b =
    elim (Bool-cases (exists_row (is_keyed d.idempotency_key) post.messages)) [
      | inl taken ↦ rw taken b
      | inr fresh ↦ elim (Bool-cases (exists_row (is_message d.new_id) post.messages)) [
        | inl taken ↦ rw (fresh, taken) tt
        | inr free ↦
            let other = begun_elsewhere i d.new_id post.messages free b.0 in
            rw (fresh, free) (rw other b.0, ((λ e. absurd (clash other e)), b.1))
      ]
    ]

abbrev after_send : Mailroom → OutboxRan → Mailroom
after_send room ran = record { post = ran.post; sends = with_send ran.call room.sends }

-- A call that is made for another message.
other-Sparing :
    (i id : ℕ) (room : Mailroom) (post : Post) (call : Option Send)
    → (id == i) ≡ false
    → IsAbout id call
    → (Begun i room.post.messages → Begun i post.messages)
    → Sparing i room
    → Sparing i (record { post = post; sends = with_send call room.sends })
unfolding exists_row
other-Sparing i id room post none other about keep s = keeps-Sparing i room post keep s
other-Sparing i id room post (some c) other about keep (once, rest) =
    let miss : is_for i c ≡ false = ap (λ n. n == i) about ∙ other in
    elim rest [
      | inl never ↦ (((λ e. absurd (clash miss e)), once), inl (rw miss never))
      | inr begun ↦ (((λ e. absurd (clash miss e)), once), inr (keep begun))
    ]

-- A first call.
first-Sparing :
    (i : ℕ) (room : Mailroom) (post : Post) (call : Option Send)
    → AtMostOne (is_for i) room.sends
    → exists_row (is_for i) room.sends ≡ false
    → Begun i post.messages
    → Sparing i (record { post = post; sends = with_send call room.sends })
first-Sparing i room post none once never begun = (once, inr begun)
first-Sparing i room post (some c) once never begun = (((λ e. never), once), inr begun)

Mem-exists_row :
    (p : OutboundMessage → Bool) (ms : List OutboundMessage) {m : OutboundMessage}
    → Memᴰ m ms
    → p m ≡ true
    → exists_row p ms ≡ true
unfolding exists_row
Mem-exists_row p [] m h = elim m [ ]
Mem-exists_row p (n ∷ ms) (Memᴰ.head e) h = rw (subst (λ x. p x ≡ true) e h)
Mem-exists_row p (n ∷ ms) (Memᴰ.tail m) h = ground (arith, Mem-exists_row p ms m h)

All-member {κ} :
    (P : OutboundMessage → Type κ) (ms : List OutboundMessage) {m : OutboundMessage}
    → Memᴰ m ms
    → All P ms
    → P m
All-member P [] m h = elim m [ ]
All-member P (n ∷ ms) (Memᴰ.head e) h = subst P (sym e) h.0
All-member P (n ∷ ms) (Memᴰ.tail m) h = All-member P ms m h.1

claimed-All :
    (i : ℕ) (f : OutboundMessage → OutboundMessage) (ms : List OutboundMessage)
    → ((m : OutboundMessage) → is_pending_message (f m).status ≡ false)
    → All
        (λ m. is_message i m ≡ true → is_pending_message m.status ≡ false)
        (update_where (is_message i) f ms)
unfolding update_where
claimed-All i f [] h = tt
claimed-All i f (m ∷ ms) h = elim (Bool-cases (is_message i m)) [
  | inl hit ↦ rw hit ((λ e. h m), claimed-All i f ms h)
  | inr miss ↦ rw miss ((λ e. absurd (clash miss e)), claimed-All i f ms h)
]

claimed-Begun :
    (post : Post) (m : OutboundMessage)
    → Memᴰ m post.messages
    → Begun m.id (claim_message post (some m)).0.messages
unfolding claim_message write_messages
claimed-Begun post m member = (
  exists_row-update_where (is_message m.id) (is_message m.id) _ post.messages (λ n. refl)
      ∙ Mem-exists_row (is_message m.id) post.messages member ((==_iff m.id m.id).1 refl),
  claimed-All m.id _ post.messages (λ n. refl),
)

claim-Begun :
    (i : ℕ) (post : Post) (m : OutboundMessage)
    → Begun i post.messages
    → Begun i (claim_message post (some m)).0.messages
unfolding claim_message write_messages
claim-Begun i post m b = update-Begun i _ _ post.messages (λ n. refl) (λ n. refl) b

pub claimed_message-id : (m : OutboundMessage) → claimed_id (claimed_message m) ≡ m.id
claimed_message-id m = ground arith

claimed-Sparing :
    (i : ℕ) (room : Mailroom) (client : Client) (clock : Clock) (m : OutboundMessage)
    → Memᴰ m room.post.messages
    → is_pending_message m.status ≡ true
    → Sparing i room
    → Sparing i
        (after_send room (run_outbox_claimed client clock (claim_message room.post (some m))))
unfolding run_outbox_claimed claim_message
claimed-Sparing i room client clock m member waits s =
    let post₁ = (claim_message room.post (some m)).0 in
    let ran = send_claimed client clock post₁ (claimed_message m) in
    let good =
      subst (λ n. Good post₁ n ran) (claimed_message-id m)
        (send_claimed-Good client clock post₁ (claimed_message m)) in
    elim (Bool-cases (m.id == i)) [
      | inr other ↦
          other-Sparing i m.id room ran.post ran.call other good.asks
            (λ b. good.keeps i (claim-Begun i room.post m b)) s
      | inl same ↦ elim s.1 [
        | inl never ↦ first-Sparing i room ran.post ran.call s.0 never (
            good.keeps i (
              subst (λ n. Begun n post₁.messages) ((==_iff m.id i).0 same)
                (claimed-Begun room.post m member)))
        | inr begun ↦ absurd (clash (All-member _ room.post.messages member begun.1 same) waits)
      ]
    ]

sendable-pending :
    (locked : ℕ → Bool) (now : ℕ) (post : Post) (m : OutboundMessage)
    → is_sendable locked now post m ≡ true
    → is_pending_message m.status ≡ true
unfolding is_sendable
sendable-pending locked now post m e = ground arith

pub candidate_message-Mem :
    (locked : ℕ → Bool) (now : ℕ) (post : Post) {m : OutboundMessage}
    → candidate_message locked now post ≡ some m
    → Memᴰ m post.messages × (is_sendable locked now post m ≡ true)
unfolding candidate_message
candidate_message-Mem locked now post e =
    select_all-Mem (is_sendable locked now post) post.messages
      (first_by-Mem queued_before (select_all (is_sendable locked now post) post.messages) e)

-- The run after the cancellations.
candidate-Sparing :
    (i : ℕ) (room : Mailroom) (post : Post) (locked : ℕ → Bool) (client : Client) (clock : Clock)
    → (Begun i room.post.messages → Begun i post.messages)
    → Sparing i room
    → (o : Option OutboundMessage) → candidate_message locked clock.claims post ≡ o
    → Sparing i (after_send room (run_outbox_claimed client clock (claim_message post o)))
unfolding run_outbox_claimed claim_message
candidate-Sparing i room post locked client clock keep s none e = keeps-Sparing i room post keep s
candidate-Sparing i room post locked client clock keep s (some m) e =
    let (member, sendable) = candidate_message-Mem locked clock.claims post e in
    claimed-Sparing i (record room { post = post }) client clock m member
      (sendable-pending locked clock.claims post m sendable) (keeps-Sparing i room post keep s)

run-Sparing :
    (i : ℕ) (room : Mailroom) (locked : ℕ → Bool) (client : Client) (clock : Clock)
    → Sparing i room
    → Sparing i (pass room (runs locked client clock))
unfolding pass run_outbox_once claim_next_message
run-Sparing i room locked client clock s =
    candidate-Sparing i room (cancel_barred clock.claims room.post) locked client clock
      (barred-Begun i clock.claims room.post) s
      (candidate_message locked clock.claims (cancel_barred clock.claims room.post)) refl

text-Leaves :
    (i : ℕ) (before post : Post) (new_id now : ℕ) (conversation_id : Option ℕ)
    (phone body key : Text) (source : Option Source)
    → Begun i post.messages
    → Leaves
        (λ p. Begun i p.messages)
        (enqueue_text before post new_id now conversation_id phone body key source)
unfolding enqueue_text insert_text_for_locked_identity
text-Leaves i before post new_id now conversation_id phone body key source b =
    let d = text_draft new_id now conversation_id phone body key source in
    locked-Leaves (λ p. Begun i p.messages)
      (lock_outbound_identity before post phone conversation_id)
      (insert_outbound post d >>= or_existing key)
      (existing-Leaves (λ p. Begun i p.messages) key (insert_outbound post d)
        (insert-Leaves i post d b))

image-Leaves :
    (i : ℕ) (before post : Post) (new_id now : ℕ) (conversation_id : Option ℕ)
    (phone caption storage_key : Text) (mime : MimeType) (key : Text) (source : Option Source)
    → Begun i post.messages
    → Leaves
        (λ p. Begun i p.messages)
        (enqueue_image before post new_id now conversation_id phone caption storage_key mime key
          source)
unfolding enqueue_image
image-Leaves i before post new_id now conversation_id phone caption storage_key mime key source b =
    let d = image_draft new_id now conversation_id phone caption storage_key mime key source in
    locked-Leaves (λ p. Begun i p.messages)
      (lock_outbound_identity before post phone conversation_id)
      (insert_outbound post d >>= or_existing key)
      (existing-Leaves (λ p. Begun i p.messages) key (insert_outbound post d)
        (insert-Leaves i post d b))

document-Leaves :
    (i : ℕ) (before post : Post) (new_id now conversation_id : ℕ)
    (phone storage_key caption key : Text)
    → Begun i post.messages
    → Leaves
        (λ p. Begun i p.messages)
        (enqueue_document before post new_id now conversation_id phone storage_key caption key)
unfolding enqueue_document
document-Leaves i before post new_id now conversation_id phone storage_key caption key b =
    let d = document_draft new_id now conversation_id phone storage_key caption key in
    locked-Leaves (λ p. Begun i p.messages)
      (lock_outbound_identity before post phone (some conversation_id)) (insert_outbound post d)
      (insert-Leaves i post d b)

pass-Sparing : (i : ℕ) (room : Mailroom) (t : Traffic) → Sparing i room → Sparing i (pass room t)
unfolding pass
pass-Sparing i room (runs locked client clock) s = run-Sparing i room locked client clock s
pass-Sparing i room (texts before n now c phone body key source) s =
    let r = enqueue_text before room.post n now c phone body key source in
    keeps-Sparing i room (post_after room.post r)
      (λ b.
        after-Leaves (λ p. Begun i p.messages) room.post r b
          (text-Leaves i before room.post n now c phone body key source b))
      s
pass-Sparing i room (images before n now c phone caption storage_key mime key source) s =
    let r = enqueue_image before room.post n now c phone caption storage_key mime key source in
    keeps-Sparing i room (post_after room.post r)
      (λ b.
        after-Leaves (λ p. Begun i p.messages) room.post r b
          (image-Leaves i before room.post n now c phone caption storage_key mime key source b))
      s
pass-Sparing i room (documents before n now c phone storage_key caption key) s =
    let r = enqueue_document before room.post n now c phone storage_key caption key in
    keeps-Sparing i room (post_after room.post r)
      (λ b.
        after-Leaves (λ p. Begun i p.messages) room.post r b
          (document-Leaves i before room.post n now c phone storage_key caption key b))
      s
pass-Sparing i room (takes k) s =
    keeps-Sparing i room (take_control room.post k) (take_control-Begun i room.post k) s
pass-Sparing i room (releases k) s =
    keeps-Sparing i room (release_control room.post k) (release_control-Begun i room.post k) s
pass-Sparing i room (others post) s =
    keeps-Sparing i room (record post { messages = room.post.messages }) (λ b. b) s

pass_all-Sparing :
    (i : ℕ) (room : Mailroom) (ts : List Traffic) → Sparing i room → Sparing i (pass_all room ts)
unfolding pass_all
pass_all-Sparing i room [] s = s
pass_all-Sparing i room (t ∷ ts) s = pass_all-Sparing i (pass room t) ts (pass-Sparing i room t s)

-- A message is handed to WhatsApp once at most: after any list of runs of the worker, new messages,
-- conversations taken over and given back, whatever calls to the database throw, whatever the storages
-- and WhatsApp answer, the calls made for one message id are one at most.
pub pass_all_once :
    (post : Post) (ts : List Traffic) (i : ℕ)
    → AtMostOne (is_for i) (pass_all (record { post = post; sends = [] }) ts).sends
unfolding exists_row
pass_all_once post ts i =
    (pass_all-Sparing i (record { post = post; sends = [] }) ts (tt, inl refl)).0
