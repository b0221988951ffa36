-- ===== src/Outbox/Keys.antt =====
-- A message is queued once for its key (apps/api/src/modules/whatsapp/postgres-outbound-repository.ts).
use automatizacion_wh.Common.{
  ℕ, ◌≡◌, refl, ap, subst, ◌∙◌, inl, inr, Bool, true, Option, none, some, List, [], ◌∷◌, Text,
  text_eq_iff, Result, ok, err, failure, ◌>>=◌, >>=-eq-ok, guard-eq-ok, same_number, text_eq,
  ==_iff, Bool-cases, Option-cases, select_one, exists_row, arith,
}
use automatizacion_wh.Outbox.Post.{Source, OutboundMessage, Post, is_message, is_keyed}
use automatizacion_wh.Outbox.Enqueue.{
  Linked, linked_conversation, identity_kept, lock_outbound_identity, Draft, queued_message,
  text_draft, insert_outbound, or_existing, insert_text_for_locked_identity, enqueue_text,
}

-- The message of a key is there, with that id.
abbrev pub IsQueued : Post → Text → ℕ → Type 0
IsQueued post key id =
    (m : OutboundMessage) × (select_one (is_keyed key) post.messages ≡ some m) × (m.id ≡ id)

found_row :
    (p : OutboundMessage → Bool) (ms : List OutboundMessage) {m : OutboundMessage}
    → select_one p ms ≡ some m
    → exists_row p ms ≡ true
unfolding select_one exists_row
found_row p [] e = cc
found_row p (n ∷ ms) {m} e = ground (arith, found_row p ms {m = m})

same_number_refl : (o : Option ℕ) → same_number o o ≡ true
same_number_refl none = refl
same_number_refl (some n) = (==_iff n n).1 refl

-- A result that queues the key and leaves the conversations and customers.
abbrev Queues : Post → Text → Result (Post × ℕ) → Type 0
Queues post key (err e) = Unit
Queues post key (ok (post', id)) =
    IsQueued post' key id
    × (post'.conversations ≡ post.conversations)
    × (post'.customers ≡ post.customers)

own_key : (d : Draft) → text_eq d.idempotency_key d.idempotency_key ≡ true
own_key d = (text_eq_iff d.idempotency_key d.idempotency_key).1 refl

insert-Queues :
    (post : Post) (d : Draft)
    → Queues post d.idempotency_key (insert_outbound post d >>= or_existing d.idempotency_key)
unfolding insert_outbound or_existing select_one
insert-Queues post d = elim (Bool-cases (exists_row (is_keyed d.idempotency_key) post.messages)) [
  | inl taken ↦ elim (Option-cases (select_one (is_keyed d.idempotency_key) post.messages)) [
    | inl missing ↦ rw (taken, missing) tt
    | inr (m, found) ↦ rw (taken, found) ((m, found, refl), refl, refl)
  ]
  | inr fresh ↦ elim (Bool-cases (exists_row (is_message d.new_id) post.messages)) [
    | inl used ↦ rw (fresh, used) tt
    | inr free ↦ rw (fresh, free) ((queued_message d, rw (own_key d) refl, refl), refl, refl)
  ]
]

-- With the key in the table, another insert of it writes nothing and gives the same id.
queued_again :
    (post : Post) (d : Draft) (id : ℕ)
    → IsQueued post d.idempotency_key id
    → (insert_outbound post d >>= or_existing d.idempotency_key) ≡ ok (post, id)
unfolding insert_outbound or_existing
queued_again post d id (m, found, same) =
    let there : exists_row (is_keyed d.idempotency_key) post.messages ≡ true =
      found_row (is_keyed d.idempotency_key) post.messages found in
    rw (there, found, same) refl

kept_identity :
    (phone : Text) (linked current : Option Linked)
    → identity_kept phone linked current ≡ true
    → identity_kept phone current current ≡ true
unfolding identity_kept
kept_identity phone linked none e = e
kept_identity phone linked (some c) e = ground (arith, same_number_refl c.customer_id)

-- The lock held on these tables holds on tables with the same conversations and customers, whenever
-- they are read again.
linked-same :
    (post post' : Post) (k : ℕ)
    → post'.conversations ≡ post.conversations
    → post'.customers ≡ post.customers
    → linked_conversation post' k ≡ linked_conversation post k
unfolding linked_conversation
linked-same post post' k e f =
    ap
      (λ cs.
        linked_conversation (record post { conversations = cs; customers = post'.customers }) k)
      e
    ∙ ap (λ us. linked_conversation (record post { customers = us }) k) f

lock_again :
    (before post post' : Post) (phone : Text) (conversation_id : Option ℕ) {u : Unit {0}}
    → post'.conversations ≡ post.conversations
    → post'.customers ≡ post.customers
    → lock_outbound_identity before post phone conversation_id ≡ ok u
    → lock_outbound_identity post' post' phone conversation_id ≡ ok tt
unfolding lock_outbound_identity
lock_again before post post' phone none e f h = refl
lock_again before post post' phone (some k) e f h =
    let kept =
      kept_identity phone (linked_conversation before k) (linked_conversation post k)
        (guard-eq-ok _ (failure "identity_changed") h) in
    rw (linked-same post post' k e f, kept) refl

-- A text is queued once for its key: if the same message is queued again with the key, from the tables
-- that the first time left, then whatever its text, its source, the clock and the random key, the
-- answer is the id of the first time and nothing is written.
pub enqueue_text_again :
    (before post post' : Post) (new_id now new_id' now' : ℕ) (conversation_id : Option ℕ)
    (phone body body' key : Text) (source source' : Option Source) {id : ℕ}
    → enqueue_text before post new_id now conversation_id phone body key source ≡ ok (post', id)
    → enqueue_text post' post' new_id' now' conversation_id phone body' key source' ≡ ok (post', id)
unfolding enqueue_text insert_text_for_locked_identity
enqueue_text_again before post post' new_id now new_id' now' k phone body body' key source source'
      {id} e =
    let d = text_draft new_id now k phone body key source in
    let d' = text_draft new_id' now' k phone body' key source' in
    let (u, locked, inserted) =
      >>=-eq-ok (lock_outbound_identity before post phone k)
        (λ done. insert_outbound post d >>= or_existing key) e in
    let (queued, conversations, customers) =
      subst (Queues post key) inserted (insert-Queues post d) in
    rw (lock_again before post post' phone k conversations customers locked)
      (queued_again post' d' id queued)
