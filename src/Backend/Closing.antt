-- ===== src/Backend/Closing.antt =====
-- The transitions that end a booking (backend/src/claw_api/api/v1/bookings.py).
use claw_compute.Prelude.{
  ℕ, ◌≡◌, refl, ap, ◌∙◌, true, false, none, some, String, if◌then◌else◌, arith,
}
use claw_compute.Escrow.Contract.{Chain, Contract}
use claw_compute.Backend.Models.{
  BookingStatus, active, cancelled, same_status, Booking, User, SettlementTx, settle, cancel,
  booking_at, saved,
}
use claw_compute.Backend.Client
use claw_compute.Backend.Client.{
  Node, Fate, unreachable, mined, unanswered, TxResult, Sent, answered, raised, send, new_events,
  is_settlement,
}
use claw_compute.Backend.Service.{Settings, World, applicable, attempt, usage_seconds, closing}
use claw_compute.Backend.Router.{
  Answer, given, http, no_result_found, Parties, parties_of, stamped, is_final, committed, transit,
  go_on, locked_first, closed_out, transition_booking,
}
use claw_compute.Backend.Transitions.{parties_of-booking, closed_out-bookings, notify-bookings}

module _ (C : Chain) (node : Node) (settings : Settings) where
  transit-final :
      (booking_id : String) (to : BookingStatus) (user : User) (now : ℕ) (fate : Fate) (w : World C)
      (b : Booking) (a : Answer Parties)
      → booking_at booking_id w.db ≡ some b
      → is_final b.status ≡ true
      → parties_of w.db booking_id to user ≡ a
      → (transit C node settings to a now fate w).1 ≡ w
  transit-final booking_id to user now fate w b (given p) row final h =
      let (row', allowed) = parties_of-booking w.db booking_id to user h in
      absurd (ground (arith, row, final, row', allowed))
  transit-final booking_id to user now fate w b (http n) row final h = refl
  transit-final booking_id to user now fate w b no_result_found row final h = refl

  -- Once a booking is over, no request changes anything: neither the tables nor the contract.
  pub final_unchanged :
      (booking_id : String) (to : BookingStatus) (user : User) (now : ℕ) (fate : Fate) (w : World C)
      (b : Booking)
      → booking_at booking_id w.db ≡ some b
      → is_final b.status ≡ true
      → (transition_booking C node settings booking_id to user now fate w).1 ≡ w
  unfolding transition_booking
  final_unchanged booking_id to user now fate w b row final =
      transit-final booking_id to user now fate w b (parties_of w.db booking_id to user) row final
        refl

module _ (C : Chain) (node : Node) (settings : Settings) (to : BookingStatus) (now : ℕ)
    (fate : Fate) (p : Parties) where
  -- The row of the booking when it is over.
  abbrev pub over : Booking
  over = stamped to now p.booking

  -- The row of its settlement before the answer.
  abbrev pub closing_tx : SettlementTx
  closing_tx =
      attempt (if same_status to cancelled then cancel else settle) (some (usage_seconds over)) over
        p.offering p.consumer p.supplier

  abbrev pub closed_by : Contract C → Sent × Contract C
  closed_by s =
      if same_status to cancelled
      then Client.cancel_booking C node over.id (usage_seconds over) fate s
      else Client.settle_booking C node over.id (usage_seconds over) fate s

  closed_out-closing :
      (w : World C)
      → p.booking.status ≡ active
      → is_final to ≡ true
      → applicable settings p.consumer p.supplier ≡ true
      → closed_out C node settings to p now fate w
        ≡ closing C node settings closing_tx
            (committed C node settings over w)
            (closed_by w.contract)
  closed_out-closing w is_active final applies = simp (is_active, final, applies)

  go_on-closed :
      (w : World C)
      → (go_on C node settings to p now fate (none, w)).1.contract
        ≡ (closed_out C node settings to p now fate w).contract
  go_on-closed w = ground arith

  go_on-txs :
      (w : World C)
      → (go_on C node settings to p now fate (none, w)).1.db.settlement_txs
        ≡ (closed_out C node settings to p now fate w).db.settlement_txs
  go_on-txs w = ground arith

  closing-contract :
      (w : World C) (sent : Sent × Contract C)
      → (closing C node settings closing_tx w sent).contract ≡ sent.1
  closing-contract w (raised e, s) = refl
  closing-contract w (answered r, s) = refl

  closing-txs :
      (w : World C) (sent : Sent × Contract C)
      → (closing C node settings closing_tx
          (committed C node settings over w)
          sent).db.settlement_txs
        ≡ (closing C node settings closing_tx w sent).db.settlement_txs
  closing-txs w (raised e, s) = refl
  closing-txs w (answered r, s) = refl

  locked_first-final :
      (w : World C) → is_final to ≡ true → locked_first C node settings to p fate w ≡ (none, w)
  locked_first-final w final =
      let other : same_status to active ≡ false = ground (arith, final) in simp other

  transition-go_on :
      (booking_id : String) (user : User) (w : World C)
      → parties_of w.db booking_id to user ≡ given p
      → is_final to ≡ true
      → transition_booking C node settings booking_id to user now fate w
        ≡ go_on C node settings to p now fate (none, w)
  unfolding transition_booking
  transition-go_on booking_id user w h final =
      ap (λ a. transit C node settings to a now fate w) h
      ∙ ap (go_on C node settings to p now fate) (locked_first-final w final)

  -- A transition that closes an active booking does to the contract and to the ledger what its
  -- settlement does.
  pub transition-closing :
      (booking_id : String) (user : User) (w : World C)
      → parties_of w.db booking_id to user ≡ given p
      → p.booking.status ≡ active
      → is_final to ≡ true
      → applicable settings p.consumer p.supplier ≡ true
      → ((transition_booking C node settings booking_id to user now fate w).1.contract
          ≡ (closed_by w.contract).1)
        × ((transition_booking C node settings booking_id to user now fate w).1.db.settlement_txs
            ≡ (closing C node settings closing_tx w (closed_by w.contract)).db.settlement_txs)
        × ((transition_booking C node settings booking_id to user now fate w).1.db.bookings
            ≡ saved over w.db.bookings)
  transition-closing booking_id user w h is_active final applies =
      let shape = transition-go_on booking_id user w h final in
      let closes = closed_out-closing w is_active final applies in
      (
        ap (λ x. x.1.contract) shape
            ∙ go_on-closed w
            ∙ ap (λ x. x.contract) closes
            ∙ closing-contract (committed C node settings over w) (closed_by w.contract),
        ap (λ x. x.1.db.settlement_txs) shape
            ∙ go_on-txs w
            ∙ ap (λ x. x.db.settlement_txs) closes
            ∙ closing-txs w (closed_by w.contract),
        ap (λ x. x.1.db.bookings) shape
            ∙ notify-bookings C node settings to p.booking over
                (closed_out C node settings to p now fate w)
            ∙ closed_out-bookings C node settings to p now fate w,
      )
