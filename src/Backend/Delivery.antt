-- ===== src/Backend/Delivery.antt =====
-- A consumer's message on its way to the worker, and in the thread of the booking
-- (backend/src/claw_api/api/v1/messages.py, crypto/sealer.py, worker/src/api/ws.rs).
use mathlib.Core.Path.{subst}
use claw_compute.Prelude.{
  ◌≡◌, refl, false, Option, none, some, find, chars, String, ◌==◌, is_empty, sym,
}
use claw_compute.Worker.Events.{
  SealedEnvelope, WorkerEvent, message_user, sealed, Bytes, Codec, Boxes, event_of, open_sealed,
}
use claw_compute.Backend.Models.{active, Booking, User, Worker, user, Message}
use claw_compute.Backend.Router.{Answer, given}
use claw_compute.Backend.Realtime.{channel_for_worker, publish}
use claw_compute.Backend.Sealer.{envelope, seal_error, seal_for_worker, seal_for_worker-open_sealed}
use claw_compute.Backend.Messages.{
  Server, booking_for_consumer, message_of, with_message, pushed_message, send_message,
}

module _ (codec : Codec) (boxes : Boxes) where
  -- The key of the worker's row is that of the worker, or it has none.
  abbrev pub IsKeyOf : (secret : Bytes) → Option String → Type 0
  IsKeyOf secret none = Unit
  IsKeyOf secret (some key) =
      (is_empty key ≡ false) × (codec.b64decode key ≡ some (boxes.public_key secret))

  -- A message is published once, as an event that the worker reads as it.
  abbrev pub Reaches : Bytes → (worker_id : String) → Message → Server → Server → Type 0
  Reaches secret worker_id msg before after =
      (event : WorkerEvent) × (after.queues
        ≡ publish (channel_for_worker worker_id) event before.queues)
      × (event_of codec boxes secret event ≡ some (message_user msg.booking_id msg.content))

  abbrev Arrives : Bytes → String → Message → Server → Option (Answer Message) × Server → Type 0
  Arrives secret worker_id msg before after =
      (after.0 ≡ some (given msg))
      × (after.1.db ≡ before.db)
      × Reaches secret worker_id msg before after.1

  pushed_plain :
      (secret : Bytes) (worker_id : String) (msg : Message) (s : Server)
      → Arrives secret worker_id msg s (pushed_message codec boxes worker_id msg seal_error s)
  unfolding event_of
  pushed_plain secret worker_id msg s =
      (refl, refl, (message_user msg.booking_id msg.content, refl, refl))

  pushed_sealed :
      (secret : Bytes) (worker_id : String) (msg : Message) (s : Server) (env : SealedEnvelope)
      → open_sealed codec boxes env secret ≡ some (message_user msg.booking_id msg.content)
      → Arrives secret worker_id msg s (pushed_message codec boxes worker_id msg (envelope env) s)
  unfolding event_of
  pushed_sealed secret worker_id msg s env opened = (refl, refl, (sealed env, refl, opened))

  unsealed :
      (inner : WorkerEvent) (ephemeral nonce : Bytes)
      → seal_for_worker codec boxes none inner ephemeral nonce ≡ seal_error
  unfolding seal_for_worker
  unsealed inner ephemeral nonce = refl

  pushed-Arrives :
      (secret ephemeral nonce : Bytes) (worker_id : String) (msg : Message) (key : Option String)
      (s : Server)
      → chars nonce ≡ 24
      → IsKeyOf secret key
      → Arrives secret worker_id msg s (
          pushed_message codec boxes worker_id msg
            (seal_for_worker codec boxes key
              (message_user msg.booking_id msg.content)
              ephemeral
              nonce)
            s)
  pushed-Arrives secret ephemeral nonce worker_id msg none s h keyed =
      subst (λ x. Arrives secret worker_id msg s (pushed_message codec boxes worker_id msg x s))
        (sym (unsealed (message_user msg.booking_id msg.content) ephemeral nonce))
        (pushed_plain secret worker_id msg s)
  pushed-Arrives secret ephemeral nonce worker_id msg (some key) s h keyed =
      let (env, into, opened) =
        seal_for_worker-open_sealed codec boxes key secret ephemeral nonce
          (message_user msg.booking_id msg.content) keyed.0 keyed.1 h refl in
      subst (λ x. Arrives secret worker_id msg s (pushed_message codec boxes worker_id msg x s))
        (sym into) (pushed_sealed secret worker_id msg s env opened)

  -- A consumer's message to an active booking is stored at the end of the messages and published once,
  -- to the channel of the booking's worker, as an event that this worker reads as the message: sealed
  -- to its key, or plain if it has none. The key of its row must be its own, the nonce have 24 bytes.
  pub send_message-arrives :
      (booking_id content : String) (sender : User) (secret ephemeral nonce : Bytes) (s : Server)
      (b : Booking) (k : Worker)
      → booking_for_consumer s.db booking_id sender.id ≡ given b
      → b.status ≡ active
      → find (λ w. w.id == b.worker_id) s.db.workers ≡ some k
      → IsKeyOf secret k.pubkey_x25519
      → chars nonce ≡ 24
      → let msg = message_of b user content in
        let after = send_message codec boxes booking_id content sender ephemeral nonce s in
        (after.0 ≡ some (given msg))
        × (after.1.db ≡ with_message msg s.db)
        × Reaches secret b.worker_id msg s after.1
  unfolding send_message
  send_message-arrives booking_id content sender secret ephemeral nonce s b k owned live row keyed
        h =
      let msg = message_of b user content in
      let stored = record s { db = with_message msg s.db } in
      let there =
        pushed-Arrives secret ephemeral nonce b.worker_id msg k.pubkey_x25519 stored h keyed in
      rw (owned, live, row) there
