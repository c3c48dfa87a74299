-- ===== src/Escrow/Refines.antt =====
-- The calls of contracts/src/ClawEscrow.sol as effects of the abstract machine.
use Prim.Native.Nat.{◌^◌}
use claw_compute.Prelude.{
  ℕ, ◌*◌, ◌%◌, ◌≤◌, ◌≡◌, ◌≢◌, refl, true, false, arith, inl, inr, Option-cases,
}
use claw_compute.Escrow.Mapping.{at-put}
use claw_compute.Escrow.Result.{returned}
use claw_compute.Escrow.Contract.{
  no_booking, Status, open_, Booking, Chain, IsToken, Contract, Msg, is_unset, is_open, amount_of,
  booking_of,
}
use claw_compute.Escrow.Calls.{
  max_commission_bps, deposit, withdraw_unused, claim, open_booking, settle_as, ceil_div, cent,
}
use claw_compute.Escrow.Effect.{Effect, paid_in, paid_out, earned_out, opened, closed}
use claw_compute.Escrow.Price.{cost_of, commission_of, commission_capped}
use claw_compute.Escrow.Sound.{IsSound}

module _ {C : Chain} (s : Contract C) (msg : Msg) where
  abbrev pub opened_booking : (consumer supplier rate duration : ℕ) → Booking
  opened_booking consumer supplier rate duration = record {
    consumer = consumer;
    supplier = supplier;
    rate_per_hour_cents = rate;
    locked_amount = ceil_div (rate * cent * duration) 3600;
    opened_at = msg.timestamp % 2 ^ 64;
    max_duration_secs = duration;
    commission_bps = s.commission_bps;
    status = open_;
  }

module _ (C : Chain) (T : IsToken C) where
  abbrev pub held : Contract C → ℕ
  held s = C.balance_of C.self s.ledger

  abbrev pub Does : Contract C → Contract C → Type 0
  Does s t = Effect s.books (held s) t.books (held t)

  module _ (msg : Msg) (s t : Contract C) (outside : msg.sender ≢ C.self) where
    pub deposit-Effect : (amount : ℕ) → deposit C amount msg s ≡ returned t → Does s t
    unfolding deposit
    deposit-Effect amount h =
        elim (Option-cases (C.transfer_from msg.sender C.self amount s.ledger)) [
          | inl e ↦ absurd (ground arith)
          | inr (l, e) ↦
              paid_in msg.sender amount (ground arith)
                (ground (arith, T.received msg.sender amount s.ledger outside e))
        ]

    pub withdraw_unused-Effect :
        (amount : ℕ) → withdraw_unused C amount msg s ≡ returned t → Does s t
    unfolding withdraw_unused
    withdraw_unused-Effect amount h =
        elim (Option-cases (C.transfer_from C.self msg.sender amount s.ledger)) [
          | inl e ↦ absurd (ground arith)
          | inr (l, e) ↦
              paid_out msg.sender amount (ground arith) (ground arith)
                (ground (arith, T.sent msg.sender amount s.ledger outside e))
        ]

    pub claim-Effect : claim C msg s ≡ returned t → Does s t
    unfolding claim
    claim-Effect h =
        elim (Option-cases
          (C.transfer_from C.self msg.sender (amount_of msg.sender s.books.claimable) s.ledger)) [
            | inl e ↦ absurd (ground arith)
            | inr (l, e) ↦ earned_out msg.sender (ground arith) (
                ground (
                  arith,
                  T.sent msg.sender (amount_of msg.sender s.books.claimable) s.ledger outside e,
                ))
          ]

  module _ (msg : Msg) (s t : Contract C) where
    pub open_booking-Effect :
        (id consumer supplier rate duration : ℕ)
        → s.commission_bps ≤ max_commission_bps
        → open_booking C id consumer supplier rate duration msg s ≡ returned t
        → Does s t
    unfolding open_booking
    open_booking-Effect id consumer supplier rate duration cap h =
        opened id (opened_booking s msg consumer supplier rate duration) (ground arith) refl
          (refl, cap, ground arith, ground arith) (ground arith) (ground arith) (ground arith)

    pub settle_as-Effect :
        (id usage : ℕ) (final_status : Status)
        → IsSound s.books (held s)
        → is_open final_status ≡ false
        → is_unset final_status ≡ false
        → settle_as C id usage final_status msg s ≡ returned t
        → Does s t
    unfolding settle_as
    settle_as-Effect id usage final_status sound f u h =
        let k = booking_of id s.books.bookings in
        let still : is_open k.status ≡ true = ground arith in
        closed id final_status (cost_of k usage) (commission_of k usage) s.treasury still f u
          (ground arith)
          (omega
            (arith, commission_capped (cost_of k usage) k.commission_bps (sound.priced id still).1))
          (ground arith) (ground arith)

module _ (C : Chain) (msg : Msg) (s t : Contract C) where
  pub open_booking-placed :
      (id consumer supplier rate duration : ℕ)
      → open_booking C id consumer supplier rate duration msg s ≡ returned t
      → booking_of id t.books.bookings ≡ opened_booking s msg consumer supplier rate duration
  unfolding open_booking
  open_booking-placed id consumer supplier rate duration h = ground (
    arith,
    at-put no_booking id id (opened_booking s msg consumer supplier rate duration) s.books.bookings,
  )
