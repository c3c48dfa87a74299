-- ===== src/Backend/Settled.antt =====
-- The settlement of a booking that ends within the time that is booked on the contract
-- (backend/src/claw_api/chain/service.py).
use Prim.Native.Nat.{◌^◌}
use claw_compute.Prelude.{
  ℕ, ◌+◌, ◌-◌, ◌≤◌, ◌<◌, ◌≡◌, refl, ap, ◌∙◌, true, Option, some, List, [], ◌∷◌, ◌++◌, find, String,
  Bool-cases, if◌then◌else◌, inl, inr,
}
use claw_compute.Escrow.Result.{returned}
use claw_compute.Escrow.Contract
use claw_compute.Escrow.Contract.{
  Chain, IsToken, Contract, Event, Msg, booking_of, is_open, is_cancelled, settler_role,
  booking_settled,
}
use claw_compute.Escrow.Calls
use claw_compute.Escrow.Calls.{settle_grace_secs, settle_as}
use claw_compute.Escrow.Price.{cost_of, commission_of}
use claw_compute.Escrow.System.{Reach}
use claw_compute.Escrow.Settle.{settled_state}
use claw_compute.Escrow.Outcome.{settlement_returns}
use claw_compute.Backend.Models.{
  BookingStatus, active, cancelled, same_status, User, SettlementTx, confirmed,
}
use claw_compute.Backend.Client.{Node, Fate, mined, answered, new_events, is_settlement}
use claw_compute.Backend.Service.{Settings, World, applicable, closed_tx, usage_seconds, closing}
use claw_compute.Backend.Router.{given, Parties, parties_of, stamped, is_final, transition_booking}
use claw_compute.Backend.Closing.{closing_tx, closed_by, transition-closing}

new_events-append : (before more : List Event) → new_events before (before ++ more) ≡ more
new_events-append [] more = refl
new_events-append (e ∷ before) more = new_events-append before more

module _ (C : Chain) (T : IsToken C) (node : Node) (settings : Settings) (to : BookingStatus)
    (now time : ℕ) (hash : String) (block : ℕ) (p : Parties) where
  abbrev key : ℕ
  key = node.keccak p.booking.id

  abbrev usage : ℕ
  usage = usage_seconds (stamped to now p.booking)

  abbrev fate : Fate
  fate = mined time hash block

  abbrev final_status : Contract.Status
  final_status = if same_status to cancelled then Contract.cancelled else Contract.settled

  -- The row of a settlement that went through.
  abbrev pub confirmed_tx : Contract.Booking → SettlementTx
  confirmed_tx k = record (closing_tx C node settings to now fate p) {
    status = confirmed;
    tx_hash = some hash;
    block_number = some block;
    amount_usdc = some (cost_of k usage);
    commission_usdc = some (commission_of k usage);
  }

  abbrev log_of : Contract.Status → Contract C → Option Event
  log_of status s =
      find is_settlement (new_events s.events (settled_state C key usage status s).events)

  -- The answer to a settlement or a cancellation that returns.
  closed_by-answered :
      (s : Contract C)
      → (Calls.settle_booking C key usage (record { sender = node.account; timestamp = time }) s
          ≡ returned (settled_state C key usage Contract.settled s))
      → (Calls.cancel_booking C key usage (record { sender = node.account; timestamp = time }) s
          ≡ returned (settled_state C key usage Contract.cancelled s))
      → closed_by C node settings to now fate p s ≡ (
        answered (record { tx_hash = hash; block_number = block; event = log_of final_status s }),
        settled_state C key usage final_status s,
      )
  closed_by-answered s settles cancels = elim (Bool-cases (same_status to cancelled)) [
    | inl h ↦ simp (h, cancels)
    | inr h ↦ simp (h, settles)
  ]

  log_of-settled :
      (status : Contract.Status) (s : Contract C)
      → log_of status s
        ≡ some (
            booking_settled key
              (booking_of key s.books.bookings).consumer
              (booking_of key s.books.bookings).supplier
              usage
              (cost_of (booking_of key s.books.bookings) usage)
              (commission_of (booking_of key s.books.bookings) usage)
              (is_cancelled status))
  log_of-settled status s = ap (find is_settlement) (new_events-append s.events _)

  -- However the contract was used before: where the chain applies and the node's account is the
  -- settler, a transition that closes an active booking, open on the contract and with a usage
  -- within the booked time and at most five minutes ahead of the block's clock, is settled on the
  -- contract when a block takes the transaction in and the receipt comes, and the ledger gets the
  -- cost and the commission that the contract charged.
  pub closing_settles :
      (booking_id : String) (user : User) (w : World C)
      → parties_of w.db booking_id to user ≡ given p
      → p.booking.status ≡ active
      → is_final to ≡ true
      → applicable settings p.consumer p.supplier ≡ true
      → Reach C w.contract
      → C.has_role settler_role node.account w.contract.guards ≡ true
      → is_open (booking_of (node.keccak p.booking.id) w.contract.books.bookings).status ≡ true
      → (booking_of (node.keccak p.booking.id) w.contract.books.bookings).opened_at ≤ time
      → time < 2 ^ 64
      → usage_seconds (stamped to now p.booking)
        ≤ (booking_of (node.keccak p.booking.id) w.contract.books.bookings).max_duration_secs
      → usage_seconds (stamped to now p.booking)
        ≤ time
          - (booking_of (node.keccak p.booking.id) w.contract.books.bookings).opened_at
          + settle_grace_secs
      → ((transition_booking C node settings booking_id to user now
            (mined time hash block)
            w).1.contract
          ≡ settled_state C
              (node.keccak p.booking.id)
              (usage_seconds (stamped to now p.booking))
              final_status
              w.contract)
        × ((transition_booking C node settings booking_id to user now
              (mined time hash block)
              w).1.db.settlement_txs
            ≡ w.db.settlement_txs
              ++ (confirmed_tx (booking_of (node.keccak p.booking.id) w.contract.books.bookings)
                  ∷ []))
  closing_settles booking_id user w h is_active final applies r role o after early within elapsed =
      let (contract, txs, rows) =
        transition-closing C node settings to now fate p booking_id user w h is_active final
          applies in
      let (settles, cancels) =
        settlement_returns C T key usage (record { sender = node.account; timestamp = time }) r role
          o after early within elapsed in
      let q = closed_by-answered w.contract settles cancels in
      (
        contract ∙ ap (λ x. x.1) q,
        txs
            ∙ ap
                (λ x.
                  (closing C node settings (closing_tx C node settings to now fate p) w
                    x).db.settlement_txs)
                q
            ∙ ap
                (λ event.
                  w.db.settlement_txs
                  ++ (closed_tx (record { tx_hash = hash; block_number = block; event = event })
                        (closing_tx C node settings to now fate p)
                      ∷ []))
                (log_of-settled final_status w.contract),
      )
