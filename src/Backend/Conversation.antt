-- ===== src/Backend/Conversation.antt =====
-- From the consumer to the sandbox: backend/src/claw_api/api/v1/messages.py and realtime.py, and
-- worker/src/api/ws.rs and booking/mod.rs.
use claw_compute.Prelude.{ℕ, ◌≡◌, ap, ◌∙◌, Option, some, [], ◌∷◌, ◌++◌, find, chars, String, ◌==◌}
use claw_compute.Worker.Events.{WorkerEvent, message_user, Bytes, Codec, Boxes, event_of}
use claw_compute.Worker.Booking.{
  BookingHandler, sandbox_chat, post_assistant_message, Outcomes, port_of, answer_of, dispatch,
}
use claw_compute.Worker.Loop.{Frame, session, handled}
use claw_compute.Worker.Cancel.{relayed-some}
use claw_compute.Backend.Models.{active, Booking, User, Worker}
use claw_compute.Backend.Router.{given}
use claw_compute.Backend.Realtime.{channel_for_worker, publish}
use claw_compute.Backend.Messages.{Server, booking_for_consumer, send_message}
use claw_compute.Backend.Delivery.{IsKeyOf, send_message-arrives}

module _ (codec : Codec) (boxes : Boxes) (model_id_of : String → Option String)
    (secret : Bytes) where
  answered :
      (now : ℕ) (o : Outcomes) (event : WorkerEvent) (booking_id content token : String) (port : ℕ)
      (h : BookingHandler)
      → event_of codec boxes secret event ≡ some (message_user booking_id content)
      → port_of booking_id h.sandbox_ports ≡ some port
      → h.api ≡ some token
      → (session codec boxes model_id_of secret
          (record { now = now; outcomes = o; event = event } ∷ [])
          h).calls
        ≡ h.calls
          ++ (sandbox_chat port content
              ∷ post_assistant_message token booking_id (answer_of o.chat)
              ∷ [])
  unfolding dispatch
  answered now o event booking_id content token port h read there wired =
      let f : Frame = record { now = now; outcomes = o; event = event } in
      ap (λ r. (handled codec boxes model_id_of secret f r h).calls) read
      ∙ relayed-some model_id_of o booking_id content token port
          (port_of booking_id h.sandbox_ports) h.api h there wired

  -- A consumer's message to an active booking is published to the channel of the booking's worker as
  -- one event, and a worker with that identity that runs the booking's sandbox on a port and gets this
  -- event sends the message to the port and posts the answer to the booking. The key of the worker's
  -- row must be its own, or missing, and the nonce have 24 bytes.
  pub message_answered :
      (booking_id content token : String) (sender : User) (ephemeral nonce : Bytes) (s : Server)
      (b : Booking) (k : Worker) (now port : ℕ) (o : Outcomes) (h : BookingHandler)
      → booking_for_consumer s.db booking_id sender.id ≡ given b
      → b.status ≡ active
      → find (λ w. w.id == b.worker_id) s.db.workers ≡ some k
      → IsKeyOf codec boxes secret k.pubkey_x25519
      → chars nonce ≡ 24
      → port_of b.id h.sandbox_ports ≡ some port
      → h.api ≡ some token
      → (event : WorkerEvent) × ((send_message codec boxes booking_id content sender ephemeral nonce
            s).1.queues
          ≡ publish (channel_for_worker b.worker_id) event s.queues)
        × ((session codec boxes model_id_of secret
              (record { now = now; outcomes = o; event = event } ∷ [])
              h).calls
            ≡ h.calls
              ++ (sandbox_chat port content
                  ∷ post_assistant_message token b.id (answer_of o.chat)
                  ∷ []))
  message_answered booking_id content token sender ephemeral nonce s b k now port o h owned live row
        keyed size there wired =
      let arrived =
        send_message-arrives codec boxes booking_id content sender secret ephemeral nonce s b k
          owned live row keyed size in
      let (event, published, read) = arrived.2 in
      (event, published, answered now o event b.id content token port h read there wired)
