-- ===== src/Escrow/Effect.antt =====
-- What a call of contracts/src/ClawEscrow.sol may do to the accounts and to the contract's balance of
-- the token: the abstract machine.
use claw_compute.Prelude.{ℕ, ◌+◌, ◌-◌, ◌*◌, ◌≤◌, ◌≡◌, true, false, ltb, if◌then◌else◌}
use claw_compute.Escrow.Mapping.{put}
use claw_compute.Escrow.Result.{max_uint}
use claw_compute.Escrow.Contract.{Status, Booking, Books, is_unset, is_open, amount_of, booking_of}
use claw_compute.Escrow.Calls.{cent, max_commission_bps, ceil_div}

-- An open booking has its worst-case cost reserved, rounded up, and a commission under the cap; the
-- cost fits into a `uint256`.
abbrev pub IsPriced : Booking → Type 0
IsPriced b =
    (b.locked_amount ≡ ceil_div (b.rate_per_hour_cents * cent * b.max_duration_secs) 3600)
    × (b.commission_bps ≤ max_commission_bps)
    × (b.rate_per_hour_cents * cent ≤ max_uint)
    × (b.rate_per_hour_cents * cent * b.max_duration_secs ≤ max_uint)

module _ (b : Books) where
  abbrev pub escrow_set : ℕ → ℕ → Books
  escrow_set who amount = record b { escrow = put who amount b.escrow }

  abbrev pub claimed_by : ℕ → Books
  claimed_by who = record b { claimable = put who 0 b.claimable }

  abbrev pub with_booking : ℕ → Booking → Books
  with_booking id k = record b {
    locked_of = put k.consumer (amount_of k.consumer b.locked_of + k.locked_amount) b.locked_of;
    bookings = put id k b.bookings;
  }

  -- What is left of a booking's cost after the commission goes to its supplier.
  abbrev pub charged : ℕ → Booking → Status → (cost commission treasury : ℕ) → Books
  charged id k status cost commission treasury =
      let earned =
        put k.supplier (amount_of k.supplier b.claimable + (cost - commission)) b.claimable in
      record {
        escrow = put k.consumer (amount_of k.consumer b.escrow - cost) b.escrow;
        locked_of = put k.consumer (amount_of k.consumer b.locked_of - k.locked_amount) b.locked_of;
        claimable =
            if ltb 0 commission
            then put treasury (amount_of treasury earned + commission) earned
            else earned;
        bookings = put id (record k { status = status }) b.bookings;
      }

-- `b` and `n` are the accounts and the balance before, `b'` and `n'` those after.
pub data Effect (b : Books) (n : ℕ) (b' : Books) (n' : ℕ) : Type 0 where
  paid_in :
      (who amount : ℕ)
      → b' ≡ escrow_set b who (amount_of who b.escrow + amount)
      → n' ≡ n + amount
      → Effect b n b' n'
  paid_out :
      (who amount : ℕ)
      → amount_of who b.locked_of + amount ≤ amount_of who b.escrow
      → b' ≡ escrow_set b who (amount_of who b.escrow - amount)
      → n' + amount ≡ n
      → Effect b n b' n'
  earned_out :
      (who : ℕ) → b' ≡ claimed_by b who → n' + amount_of who b.claimable ≡ n → Effect b n b' n'
  opened :
      (id : ℕ) (k : Booking)
      → is_unset (booking_of id b.bookings).status ≡ true
      → is_open k.status ≡ true
      → IsPriced k
      → amount_of k.consumer b.locked_of + k.locked_amount ≤ amount_of k.consumer b.escrow
      → b' ≡ with_booking b id k
      → n' ≡ n
      → Effect b n b' n'
  closed :
      (id : ℕ) (status : Status) (cost commission treasury : ℕ)
      → is_open (booking_of id b.bookings).status ≡ true
      → is_open status ≡ false
      → is_unset status ≡ false
      → cost ≤ (booking_of id b.bookings).locked_amount
      → commission ≤ cost
      → b' ≡ charged b id (booking_of id b.bookings) status cost commission treasury
      → n' ≡ n
      → Effect b n b' n'
  untouched : b' ≡ b → n ≤ n' → Effect b n b' n'
