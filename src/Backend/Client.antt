-- ===== src/Backend/Client.antt =====
-- backend/src/claw_api/chain/escrow_client.py: the calls of the contract by the settler's account.
use claw_compute.Prelude.{ℕ, Bool, true, false, Option, some, List, [], ◌∷◌, find, String}
use claw_compute.Escrow.Result.{Result, returned, reverted}
use claw_compute.Escrow.Contract.{Chain, Contract, Event, booking_opened, booking_settled}
use claw_compute.Escrow.System
use claw_compute.Escrow.System.{Call, execute}
use claw_compute.Backend.Models.{ChainError, bad_address, unreachable_node, timed_out, refused_by}

-- What the client gets from web3: the hash of a booking's id, the address that a wallet's text stands
-- for, and the address of the settler's key.
pub record Node : Type 0 where
  pub keccak : String → ℕ
  pub to_checksum_address : String → Option ℕ
  pub account : ℕ

-- What becomes of a transaction: the node is not reached; a block at that time takes it in; or a
-- block takes it in and the receipt does not come within the minute.
pub data Fate : Type 0 where
  unreachable : Fate
  mined : (timestamp : ℕ) (tx_hash : String) (block_number : ℕ) → Fate
  unanswered : (timestamp : ℕ) → Fate

pub record TxResult : Type 0 where
  pub tx_hash : String
  pub block_number : ℕ
  pub event : Option Event

pub data Sent : Type 0 where
  answered : TxResult → Sent
  raised : ChainError → Sent

-- The events of a transaction: those that the contract did not have before.
abbrev pub new_events : List Event → List Event → List Event
new_events [] after = after
new_events (e ∷ before) [] = []
new_events (e ∷ before) (e' ∷ after) = new_events before after

abbrev pub is_opening : Event → Bool
is_opening (booking_opened id k) = true
is_opening _ = false

abbrev pub is_settlement : Event → Bool
is_settlement (booking_settled id consumer supplier usage cost commission cancelled) = true
is_settlement _ = false

module _ (C : Chain) (node : Node) where
  abbrev pub included : (Contract C → Sent) → Contract C → Result (Contract C) → Sent × Contract C
  included answer s (reverted e) = (raised (refused_by e), s)
  included answer s (returned t) = (answer t, t)

  abbrev execute_at : Call → ℕ → Contract C → Result (Contract C)
  execute_at call time s = execute C call (record { sender = node.account; timestamp = time }) s

  -- `_send`; a call that reverts does so when its gas is estimated, or in the block.
  abbrev pub send : Call → (Event → Bool) → Fate → Contract C → Sent × Contract C
  send call wanted unreachable s = (raised unreachable_node, s)
  send call wanted (mined time hash block) s =
      included
        (λ t. answered (record {
          tx_hash = hash;
          block_number = block;
          event = find wanted (new_events s.events t.events);
        }))
        s (execute_at call time s)
  send call wanted (unanswered time) s = included (λ t. raised timed_out) s (execute_at call time s)

  abbrev pub open_at : String → Option ℕ → Option ℕ → ℕ → ℕ → Fate → Contract C → Sent × Contract C
  open_at id (some consumer) (some supplier) rate max_secs fate s =
      send (System.open_booking (node.keccak id) consumer supplier rate max_secs) is_opening fate s
  open_at id _ _ rate max_secs fate s = (raised bad_address, s)

  abbrev pub open_booking :
      (booking_id consumer supplier : String)
      → (rate_per_hour_cents max_duration_secs : ℕ) → Fate
      → Contract C
      → Sent × Contract C
  open_booking id consumer supplier rate max_secs fate s =
      open_at id (node.to_checksum_address consumer) (node.to_checksum_address supplier) rate
        max_secs fate s

  abbrev pub settle_booking : String → ℕ → Fate → Contract C → Sent × Contract C
  settle_booking id usage fate s =
      send (System.settle_booking (node.keccak id) usage) is_settlement fate s

  abbrev pub cancel_booking : String → ℕ → Fate → Contract C → Sent × Contract C
  cancel_booking id usage fate s =
      send (System.cancel_booking (node.keccak id) usage) is_settlement fate s
