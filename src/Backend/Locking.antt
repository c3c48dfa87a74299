-- ===== src/Backend/Locking.antt =====
-- The activation of a booking (backend/src/claw_api/chain/service.py and api/v1/bookings.py) and its
-- lock on the contract.
use claw_compute.Prelude.{◌≢◌, ℕ, ◌*◌, ◌≡◌, Bool, not, Option, none, [], ◌∷◌, ◌++◌, if◌then◌else◌}
use claw_compute.Escrow.Contract
use claw_compute.Escrow.Contract.{Chain, Contract, Msg, booking_of}
use claw_compute.Escrow.Calls
use claw_compute.Escrow.Calls.{cent, ceil_div}
use claw_compute.Escrow.System
use claw_compute.Backend.Models.{Booking, ChainError, SettlementTx, open_}
use claw_compute.Backend.Client
use claw_compute.Backend.Client.{Node, Fate, TxResult, Sent}
use claw_compute.Backend.Service.{
  Settings, World, text_or_empty, attempt, refused_tx, opened_tx, opening,
}
use claw_compute.Backend.Router.{Answer, http, Parties}

module _ (C : Chain) (node : Node) where
  abbrev by_settler : ℕ → Msg
  by_settler time = record { sender = node.account; timestamp = time }

  -- The contract has the booking open, with its worst-case cost locked.
  abbrev pub IsLocked : ℕ → ℕ → ℕ → Contract C → Type 0
  IsLocked id rate secs s =
      let k = booking_of id s.books.bookings in
      (k.status ≡ Contract.open_)
      × (k.rate_per_hour_cents ≡ rate)
      × (k.max_duration_secs ≡ secs)
      × (k.locked_amount ≡ ceil_div (rate * cent * secs) 3600)

module _ (C : Chain) (node : Node) (settings : Settings) where
  abbrev the_tx : Parties → SettlementTx
  the_tx p = attempt open_ none p.booking p.offering p.consumer p.supplier

  -- What an activation comes to: the lock is placed and recorded; or the answer is 402, the bookings
  -- are as they were and the failure is recorded.
  pub data Activation (p : Parties) (w : World C) (a : Answer Booking) (w' : World C) : Type 0 where
    locked :
        (r : TxResult)
        → a ≢ http 402
        → IsLocked C node
            (node.keccak p.booking.id)
            p.offering.price_per_hour_cents
            (settings.chain_max_booking_hours * 3600)
            w'.contract
        → w'.db.settlement_txs ≡ w.db.settlement_txs ++ (opened_tx r (the_tx p) ∷ [])
        → Activation p w a w'
    refused :
        (e : ChainError)
        → a ≡ http 402
        → w'.db.bookings ≡ w.db.bookings
        → w'.db.settlement_txs ≡ w.db.settlement_txs ++ (refused_tx e (the_tx p) ∷ [])
        → Activation p w a w'

  abbrev opened_by : Parties → Fate → World C → Sent × Contract C
  opened_by p fate w =
      Client.open_booking C node p.booking.id (text_or_empty p.consumer.wallet_address)
        (text_or_empty p.supplier.payout_wallet) p.offering.price_per_hour_cents
        (settings.chain_max_booking_hours * 3600) fate w.contract

  abbrev opening_if : Bool → Parties → Fate → World C → Option ChainError × World C
  opening_if applies p fate w =
      if not applies then (none, w) else opening C node settings (the_tx p) w (opened_by p fate w)
