-- ===== src/Escrow/Outcome.antt =====
-- The settlements of contracts/src/ClawEscrow.sol in the states that the contract can be in.
use Prim.Native.Nat.{◌^◌}
use claw_compute.Prelude.{ℕ, ◌+◌, ◌-◌, ◌≤◌, ◌<◌, ◌≡◌, true}
use claw_compute.Escrow.Result.{returned}
use claw_compute.Escrow.Contract.{
  settled, cancelled, settler_role, Chain, IsToken, Contract, Msg, is_open, booking_of,
}
use claw_compute.Escrow.Calls.{settle_grace_secs, settle_booking, cancel_booking}
use claw_compute.Escrow.System.{Reach, Reach-IsValid}
use claw_compute.Escrow.Settle.{settled_state, settle_as_returns}

module _ (C : Chain) (T : IsToken C) where
  -- However the contract was used before, and paused or not: the settler can settle an open
  -- booking, or cancel it, for every usage within the booked time that is at most five minutes
  -- ahead of the clock, a clock of 64 bits that is not before the opening. No check of the
  -- arithmetic stops it.
  pub settlement_returns :
      (id usage : ℕ) (msg : Msg) {s : Contract C}
      → Reach C s
      → C.has_role settler_role msg.sender s.guards ≡ true
      → is_open (booking_of id s.books.bookings).status ≡ true
      → (booking_of id s.books.bookings).opened_at ≤ msg.timestamp
      → msg.timestamp < 2 ^ 64
      → usage ≤ (booking_of id s.books.bookings).max_duration_secs
      → usage ≤ msg.timestamp - (booking_of id s.books.bookings).opened_at + settle_grace_secs
      → (settle_booking C id usage msg s ≡ returned (settled_state C id usage settled s))
        × (cancel_booking C id usage msg s ≡ returned (settled_state C id usage cancelled s))
  unfolding settle_booking cancel_booking
  settlement_returns id usage msg {s} r role o after early within elapsed =
      let v = Reach-IsValid C T r in
      (
        simp (
          role,
          settle_as_returns C id usage s T v.sound settled msg o after early within elapsed,
        ),
        simp (
          role,
          settle_as_returns C id usage s T v.sound cancelled msg o after early within elapsed,
        ),
      )
