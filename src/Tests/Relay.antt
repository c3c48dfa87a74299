-- ===== src/Tests/Relay.antt =====
-- Messages on their way to a sandbox, and rows of the public ledger, at which the theorems are applied.
use claw_compute.Prelude.{
  ◌+◌, ◌≡◌, refl, Bool, true, Option, none, some, String, List, [], ◌∷◌, map, length,
}
use claw_compute.Worker.Events.{
  SealedEnvelope, WorkerEvent, ping, booking_activated, booking_cancelled, message_user,
  open_sealed,
}
use claw_compute.Worker.Booking.{
  BookingRow, stop, sandbox_chat, post_assistant_message, reply, Outcomes, BookingHandler, port_of,
  answer_of, dispatch,
}
use claw_compute.Worker.Loop.{Frame, Attempt, unreached, connected, session, run_ws}
use claw_compute.Worker.Tracked.{status_of, IsTracked}
use claw_compute.Worker.Cancel.{cancel_stops, cancelled_silent}
use claw_compute.Worker.Safe.{run_ws-IsTracked}
use claw_compute.Backend.Models.{Booking, Worker, SettlementTx, open_, settle, confirmed, active}
use claw_compute.Backend.Workers.{new_worker}
use claw_compute.Backend.Realtime.{
  Queue, channel_for_worker, publish, publish_all, filled, publish_all-eq-filled,
}
use claw_compute.Backend.Sealer.{envelope, seal_for_worker, seal_for_worker-open_sealed}
use claw_compute.Backend.Messages.{Server, send_message}
use claw_compute.Backend.Conversation.{message_answered}
use claw_compute.Backend.PublicLedger.{sum_of, still_open, stats_of}
use claw_compute.Backend.LedgerLocked.{locked_volume_lem}
use claw_compute.Backend.LedgerSums.{released, stats_of-close}
use claw_compute.Tests.Codec.{plain_codec, plain_boxes}
use claw_compute.Tests.Accounts.{ann, tables}

abbrev key : String
key = "0123456789abcdef0123456789abcdef"

abbrev a_nonce : String
a_nonce = "0123456789abcdef01234567"

abbrev no_model : String → Option String
no_model config = none

abbrev all_well : Outcomes
all_well = record {
  started = some (record { sandbox_id = "x"; forwarded_port = some 8000 });
  stopped = true;
  listed = true;
  upserted = true;
  chat = reply "hello";
}

abbrev a_row : BookingRow
a_row = record {
  id = "b";
  offering_id = "o";
  status = "active";
  started_at = some 0;
  sandbox_id = some "x";
}

abbrev running : BookingHandler
running = record {
  model_host = true;
  api = some "token";
  sandbox_ports = ("b", 8000) ∷ [];
  rows = a_row ∷ [];
  calls = [];
}

abbrev after_cancel : Bool × BookingHandler
after_cancel = dispatch no_model 5 all_well (booking_cancelled "b") running

cancel_stops_example :
    (after_cancel.1.calls ≡ stop "x" ∷ [])
    × (after_cancel.0 ≡ true)
    × (status_of "b" after_cancel.1.rows ≡ some "cancelled")
    × (port_of "b" after_cancel.1.sandbox_ports ≡ none)
cancel_stops_example = cancel_stops no_model 5 all_well "b" "x" running a_row refl refl refl refl

cancelled_silent_example :
    dispatch no_model 9 all_well (message_user "b" "hi") after_cancel.1 ≡ (true, after_cancel.1)
unfolding dispatch
cancelled_silent_example = cancelled_silent no_model 5 9 all_well all_well "b" "hi" running refl

abbrev frame : WorkerEvent → Frame
frame event = record { now = 5; outcomes = all_well; event = event }

abbrev attempts : List Attempt
attempts =
    unreached
    ∷ connected (frame (booking_activated "c" "o" "{}") ∷ frame (message_user "c" "hi") ∷ [])
    ∷ connected (frame (booking_cancelled "b") ∷ [])
    ∷ []

run_ws-IsTracked_example :
    IsTracked (run_ws plain_codec plain_boxes no_model "me" attempts 1 running).1
run_ws-IsTracked_example =
    run_ws-IsTracked plain_codec plain_boxes no_model "me" attempts 1 running
      (tt, ((refl, (refl, tt)), ((refl, tt), tt))) (refl, tt)

seal_for_worker-open_sealed_example :
    (env : SealedEnvelope) × (seal_for_worker plain_codec plain_boxes
        (some key)
        (message_user "b" "hi")
        "e"
        a_nonce
      ≡ envelope env)
    × (open_sealed plain_codec plain_boxes env "me" ≡ some (message_user "b" "hi"))
unfolding plain_codec plain_boxes
seal_for_worker-open_sealed_example =
    seal_for_worker-open_sealed plain_codec plain_boxes key "me" "e" a_nonce (message_user "b" "hi")
      refl refl refl refl

abbrev queues : List (Queue WorkerEvent)
queues =
    record { number = 1; channel = channel_for_worker "k"; items = [] }
    ∷ record { number = 2; channel = channel_for_worker "l"; items = ping ∷ [] }
    ∷ []

abbrev published : List (String × WorkerEvent)
published = (channel_for_worker "k", booking_cancelled "b") ∷ (channel_for_worker "m", ping) ∷ []

publish_all-eq-filled_example : publish_all published queues ≡ map (filled published) queues
publish_all-eq-filled_example = publish_all-eq-filled published queues

abbrev live_booking : Booking
live_booking = record {
  id = "b";
  consumer_user_id = "u";
  offering_id = "o";
  worker_id = "k";
  status = active;
  started_at = some 0;
  ended_at = none;
}

abbrev sealing_worker : Worker
sealing_worker = record (new_worker "k" "s" "mini" "#p") { pubkey_x25519 = some key }

abbrev server : Server
server = record {
  db = record tables { bookings = live_booking ∷ []; workers = sealing_worker ∷ [] };
  queues = queues;
}

message_answered_example :
    (event : WorkerEvent) × ((send_message plain_codec plain_boxes "b" "hi" ann "e" a_nonce
        server).1.queues
      ≡ publish (channel_for_worker "k") event queues)
    × ((session plain_codec plain_boxes no_model "me"
          (record { now = 5; outcomes = all_well; event = event } ∷ [])
          running).calls
        ≡ sandbox_chat 8000 "hi"
          ∷ post_assistant_message "token" "b" (answer_of (reply "hello"))
          ∷ [])
unfolding plain_codec plain_boxes
message_answered_example =
    message_answered plain_codec plain_boxes no_model "me" "b" "hi" "token" ann "e" a_nonce server
      live_booking sealing_worker 5 8000 all_well running refl refl refl (refl, refl) refl refl refl

abbrev opening : SettlementTx
opening = record {
  booking_id = "b";
  kind = open_;
  status = confirmed;
  tx_hash = some "0x1";
  block_number = some 1;
  consumer_wallet = none;
  supplier_wallet = none;
  rate_per_hour_cents = some 480;
  usage_seconds = none;
  amount_usdc = some 4800000;
  commission_usdc = none;
  error = none;
}

abbrev closing : SettlementTx
closing = record opening {
  kind = settle;
  usage_seconds = some 1800;
  amount_usdc = some 2400000;
  commission_usdc = some 360000;
}

locked_volume_lem_example :
    (stats_of (opening ∷ [])).locked_volume_usdc
    ≡ sum_of (λ tx. tx.amount_usdc) (still_open (opening ∷ []))
locked_volume_lem_example = locked_volume_lem (opening ∷ [])

stats_of-close_example :
    ((stats_of (opening ∷ closing ∷ [])).settled_volume_usdc
      ≡ (stats_of (opening ∷ [])).settled_volume_usdc + 2400000)
    × ((stats_of (opening ∷ closing ∷ [])).commission_usdc
        ≡ (stats_of (opening ∷ [])).commission_usdc + 360000)
    × ((stats_of (opening ∷ closing ∷ [])).settlements ≡ (stats_of (opening ∷ [])).settlements + 1)
    × ((stats_of (opening ∷ closing ∷ [])).locked_volume_usdc
          + sum_of (λ r. r.amount_usdc) (released closing refl (opening ∷ []))
        ≡ (stats_of (opening ∷ [])).locked_volume_usdc)
    × ((stats_of (opening ∷ closing ∷ [])).open_bookings
          + length (released closing refl (opening ∷ []))
        ≡ (stats_of (opening ∷ [])).open_bookings)
stats_of-close_example = stats_of-close closing refl (opening ∷ [])
