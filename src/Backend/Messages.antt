-- ===== src/Backend/Messages.antt =====
-- backend/src/claw_api/api/v1/messages.py: the messages of a booking, and how a consumer's message is
-- published to the worker.
use claw_compute.Prelude.{
  ◌&&◌, not, Option, none, some, List, [], ◌∷◌, ◌++◌, find, filter, String, ◌==◌, if◌then◌else◌,
}
use claw_compute.Worker.Events.{WorkerEvent, message_user, sealed, Bytes, Codec, Boxes}
use claw_compute.Backend.Models.{
  active, same_status, Booking, User, Worker, MessageRole, user, assistant, Message, Db, booking_at,
}
use claw_compute.Backend.Router.{Answer, given, http, no_result_found}
use claw_compute.Backend.Realtime.{Queue, channel_for_worker, publish}
use claw_compute.Backend.Sealer.{Sealing, envelope, seal_error, binascii_error, seal_for_worker}

pub record Server : Type 0 where
  pub db : Db
  pub queues : List (Queue WorkerEvent)

-- `_booking_for_consumer`
abbrev pub booking_for_consumer : Db → (booking_id user_id : String) → Answer Booking
booking_for_consumer db booking_id user_id =
    elim (find (λ b. b.id == booking_id && b.consumer_user_id == user_id) db.bookings) [
      | none ↦ http 404
      | some booking ↦ given booking
    ]

abbrev pub message_of : Booking → MessageRole → String → Message
message_of booking role content = record { booking_id = booking.id; role = role; content = content }

abbrev pub with_message : Message → Db → Db
with_message msg db = record db { messages = db.messages ++ (msg ∷ []) }

abbrev pub thread : (booking_id : String) → Db → List Message
thread booking_id db = filter (λ m. m.booking_id == booking_id) db.messages

abbrev pub threaded : (booking_id : String) → Db → Answer Booking → Answer (List Message)
threaded booking_id db (given booking) = given (thread booking_id db)
threaded booking_id db (http n) = http n
threaded booking_id db no_result_found = no_result_found

-- The rows of a table stand in the order of their creation.
unfoldable pub list_messages : (booking_id : String) → User → Db → Answer (List Message)
list_messages booking_id reader db =
    threaded booking_id db (booking_for_consumer db booking_id reader.id)

abbrev pub replied : String → Worker → Db → Option Booking → Answer Message × Db
replied content worker db none = (http 404, db)
replied content worker db (some booking) =
    if not (booking.worker_id == worker.id) then (http 404, db) else (
      given (message_of booking assistant content),
      with_message (message_of booking assistant content) db,
    )

-- The worker is the one that the request's token names.
unfoldable pub post_assistant_message :
    (booking_id content : String) → Worker → Db → Answer Message × Db
post_assistant_message booking_id content worker db =
    replied content worker db (booking_at booking_id db)

module _ (codec : Codec) (boxes : Boxes) where
  -- `none` is the exception that the sealing leaves uncaught.
  abbrev pub pushed_message :
      (worker_id : String) → Message → Sealing → Server → Option (Answer Message) × Server
  pushed_message worker_id msg (envelope env) s = (
    some (given msg),
    record s { queues = publish (channel_for_worker worker_id) (sealed env) s.queues },
  )
  pushed_message worker_id msg seal_error s = (
    some (given msg),
    record s {
      queues =
          publish (channel_for_worker worker_id) (message_user msg.booking_id msg.content) s.queues;
    },
  )
  pushed_message worker_id msg binascii_error s = (none, s)

  abbrev pub relayed :
      Booking
      → Message
      → (ephemeral nonce : Bytes) → Option Worker
      → Server
      → Option (Answer Message) × Server
  relayed booking msg ephemeral nonce none s = (some no_result_found, s)
  relayed booking msg ephemeral nonce (some worker) s =
      pushed_message booking.worker_id msg
        (seal_for_worker codec boxes worker.pubkey_x25519 (message_user msg.booking_id msg.content)
          ephemeral nonce)
        s

  -- The message is committed before the worker is told.
  abbrev pub sent_to :
      (content : String) (ephemeral nonce : Bytes)
      → Server
      → Answer Booking
      → Option (Answer Message) × Server
  sent_to content ephemeral nonce s (http n) = (some (http n), s)
  sent_to content ephemeral nonce s no_result_found = (some no_result_found, s)
  sent_to content ephemeral nonce s (given booking) =
      let msg = message_of booking user content in
      if not (same_status booking.status active)
      then (some (http 409), s)
      else relayed booking msg ephemeral nonce (find (λ k. k.id == booking.worker_id) s.db.workers)
          (record s { db = with_message msg s.db })

  unfoldable pub send_message :
      (booking_id content : String)
      → User
      → (ephemeral nonce : Bytes) → Server
      → Option (Answer Message) × Server
  send_message booking_id content sender ephemeral nonce s =
      sent_to content ephemeral nonce s (booking_for_consumer s.db booking_id sender.id)
