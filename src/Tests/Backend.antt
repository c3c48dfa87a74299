-- ===== src/Tests/Backend.antt =====
-- A small market with one booking: the requests that the theorems on the backend are tried on.
use claw_compute.Prelude.{ℕ, ◌≡◌, refl, true, none, some, [], ◌∷◌, ◌==◌, if◌then◌else◌, arith}
use claw_compute.Escrow.Result.{max_uint, add, sub, mul}
use claw_compute.Escrow.Contract
use claw_compute.Escrow.Contract.{Contract, booking_of}
use claw_compute.Escrow.Calls
use claw_compute.Escrow.Calls.{quote, free_escrow_of, ceil_div}
use claw_compute.Escrow.Settle.{settled_state}
use claw_compute.Backend.Models.{
  BookingStatus, active, completed, cancelled, Booking, Offering, User, Supplier, Worker, online,
  no_trust,
}
use claw_compute.Backend.Client.{Node, Fate, unreachable, mined}
use claw_compute.Backend.Service.{Settings, World}
use claw_compute.Backend.Router.{Answer, Parties, transition_booking}
use claw_compute.Backend.Closing.{final_unchanged}
use claw_compute.Backend.Settled.{confirmed_tx, closing_settles}
use claw_compute.Tests.Token.{small_chain, small_chain-IsToken}
use claw_compute.Tests.Escrow.{Vault, funded_vault, open_vault, open_vault-Reach}

abbrev small_node : Node
small_node = record {
  keccak = λ id. 7;
  to_checksum_address =
      λ wallet. if wallet == "0xa" then some 10 else if wallet == "0xb" then some 20 else none;
  account = 2;
}

abbrev one_hour : Settings
one_hour = record {
  chain_enabled = true;
  chain_escrow_address = "0xe";
  chain_settler_key = "0xf";
  chain_max_booking_hours = 1;
}

abbrev a_booking : BookingStatus → Booking
a_booking status = record {
  id = "b";
  consumer_user_id = "u";
  offering_id = "o";
  worker_id = "k";
  status = status;
  started_at = some 0;
  ended_at = none;
}

abbrev an_offering : Offering
an_offering = record { id = "o"; supplier_id = "s"; price_per_hour_cents = 480 }

abbrev a_consumer : User
a_consumer = record { id = "u"; email = "u@x"; wallet_address = some "0xa" }

abbrev a_supplier : Supplier
a_supplier = record { id = "s"; user_id = "v"; payout_wallet = some "0xb" }

abbrev a_worker : Worker
a_worker = record {
  id = "k";
  supplier_id = "s";
  name = "mini";
  provisioning_token_hash = none;
  status = online;
  last_seen_at = none;
  machine_info = "{}";
  pubkey_x25519 = none;
  trust_level = no_trust;
  attested_at = none;
}

abbrev market : BookingStatus → Vault → World small_chain
market status vault = record {
  db = record {
    bookings = a_booking status ∷ [];
    offerings = an_offering ∷ [];
    users = a_consumer ∷ [];
    suppliers = a_supplier ∷ [];
    workers = a_worker ∷ [];
    heartbeats = [];
    magic_link_tokens = [];
    messages = [];
    settlement_txs = [];
  };
  contract = vault;
  published = [];
}

abbrev parties : BookingStatus → Parties
parties status = record {
  booking = a_booking status;
  offering = an_offering;
  consumer = a_consumer;
  supplier = a_supplier;
}

abbrev request : BookingStatus → ℕ → Fate → World small_chain → Answer Booking × World small_chain
request to = transition_booking small_chain small_node one_hour "b" to a_consumer

abbrev paid_at : ℕ → Fate
paid_at time = mined time "0x1" 9

final_unchanged_example :
    (request cancelled 5 unreachable (market completed open_vault)).1 ≡ market completed open_vault
final_unchanged_example =
    final_unchanged small_chain small_node one_hour "b" cancelled a_consumer 5 unreachable
      (market completed open_vault) (a_booking completed) refl refl

-- Half an hour of the booked hour, and more than it.
closing_settles_example :
    ((request completed 1800000000 (paid_at 2800) (market active open_vault)).1.contract
      ≡ settled_state small_chain 7 1800 Contract.settled open_vault)
    × ((request completed 1800000000 (paid_at 2800) (market active open_vault)).1.db.settlement_txs
        ≡ confirmed_tx small_chain small_chain-IsToken small_node one_hour completed 1800000000 2800
            "0x1" 9
            (parties active)
            (booking_of 7 open_vault.books.bookings)
          ∷ [])
unfolding Calls.open_booking Calls.deposit add mul sub free_escrow_of ceil_div max_uint funded_vault
    open_vault
closing_settles_example =
    closing_settles small_chain small_chain-IsToken small_node one_hour completed 1800000000 2800
      "0x1" 9 (parties active) "b" a_consumer (market active open_vault) refl refl refl refl
      open_vault-Reach refl refl (omega arith) (omega arith) (omega arith) (omega arith)
