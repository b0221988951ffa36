-- ===== src/Outbox/Traffic.antt =====
-- What writes the outbound messages, in any order: runs of the worker
-- (apps/api/src/modules/whatsapp/outbox-worker.ts), new messages, and the owner, who takes over
-- conversations and gives them back; with the calls to WhatsApp that the runs have made.
use automatizacion_wh.Common.{ℕ, Bool, Option, none, some, List, [], ◌∷◌, Text, Result, ok, err}
use automatizacion_wh.Outbox.Post.{Source, MimeType, Post}
use automatizacion_wh.Outbox.Enqueue.{enqueue_text, enqueue_image, enqueue_document}
use automatizacion_wh.Outbox.Control.{take_control, release_control}
use automatizacion_wh.Outbox.Worker.{Client, Clock, Send, run_outbox_once}

pub record Mailroom : Type 0 where
  pub post : Post
  pub sends : List Send

-- `others` puts any rows into the other tables. The first argument of the new messages are the tables
-- before their locks were taken.
pub data Traffic : Type 0 where
  runs : (ℕ → Bool) → Client → Clock → Traffic
  texts : Post → ℕ → ℕ → Option ℕ → Text → Text → Text → Option Source → Traffic
  images : Post → ℕ → ℕ → Option ℕ → Text → Text → Text → MimeType → Text → Option Source → Traffic
  documents : Post → ℕ → ℕ → ℕ → Text → Text → Text → Text → Traffic
  takes releases : ℕ → Traffic
  others : Post → Traffic

-- An error leaves the tables as they were.
abbrev pub post_after {ℓ} : {A : Type ℓ} → Post → Result (Post × A) → Post
post_after post (ok (post', a)) = post'
post_after post (err e) = post

abbrev pub with_send : Option Send → List Send → List Send
with_send none sends = sends
with_send (some s) sends = s ∷ sends

unfoldable pub pass : Mailroom → Traffic → Mailroom
pass room (runs locked client clock) =
    let ran = run_outbox_once locked client clock room.post in
    record { post = ran.post; sends = with_send ran.call room.sends }
pass room (texts before new_id now conversation_id phone body key source) = record room {
  post =
      post_after room.post
        (enqueue_text before room.post new_id now conversation_id phone body key source);
}
pass room (images before new_id now conversation_id phone caption storage_key mime key source) =
    record room {
      post = post_after room.post (
          enqueue_image before room.post new_id now conversation_id phone caption storage_key mime
            key source);
    }
pass room (documents before new_id now conversation_id phone storage_key caption key) =
    record room {
      post = post_after room.post (
          enqueue_document before room.post new_id now conversation_id phone storage_key caption
            key);
    }
pass room (takes conversation_id) = record room { post = take_control room.post conversation_id }
pass room (releases conversation_id) = record room {
  post = release_control room.post conversation_id;
}
pass room (others post) = record room { post = record post { messages = room.post.messages } }

unfoldable pub pass_all : Mailroom → List Traffic → Mailroom
unfolding pass
pass_all room [] = room
pass_all room (t ∷ ts) = pass_all (pass room t) ts
