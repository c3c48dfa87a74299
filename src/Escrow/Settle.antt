-- ===== src/Escrow/Settle.antt =====
-- The steps of a settlement, settleBooking and cancelBooking of contracts/src/ClawEscrow.sol.
use Prim.Native.Nat.{◌^◌}
use claw_compute.Prelude.{
  ℕ, ◌+◌, ◌-◌, ◌*◌, ◌≤◌, ◌<◌, ◌≡◌, refl, ltb, Bool-cases, inl, inr, true, false, arith,
}
use claw_compute.Escrow.Mapping.{Mapping, put, total-put, at-le-total}
use claw_compute.Escrow.Result.{
  returned, add, sub, mul, add_returns, sub_returns, mul_returns, max_uint, max_uint_wide,
}
use claw_compute.Escrow.Contract.{
  Status, Booking, booking_settled, Chain, IsToken, Contract, Msg, is_open, is_cancelled, amount_of,
  booking_of, sum,
}
use claw_compute.Escrow.Calls.{
  cent, settle_grace_secs, ceil_div, quote, max_allowed, emit, settle_as,
}
use claw_compute.Escrow.Effect.{IsPriced, charged}
use claw_compute.Escrow.Price.{cost_of, commission_of, mul-le, commission_capped}
use claw_compute.Escrow.Sound.{IsSound, lock-le}

module _ (C : Chain) where
  -- The state after a settlement.
  abbrev pub settled_state : ℕ → ℕ → Status → Contract C → Contract C
  settled_state id usage status s =
      let k = booking_of id s.books.bookings in
      let cost = cost_of k usage in
      let commission = commission_of k usage in
      emit C (booking_settled id k.consumer k.supplier usage cost commission (is_cancelled status))
        (record s { books = charged s.books id k status cost commission s.treasury })

pub cost-le-locked : (k : Booking) (usage : ℕ) → cost_of k usage ≤ k.locked_amount
cost-le-locked k usage = ground arith

-- The product of a cost and a commission fits into a `uint256`.
commission-le-max_uint :
    (k : Booking) (usage : ℕ) → IsPriced k → cost_of k usage * k.commission_bps ≤ max_uint
unfolding ceil_div
commission-le-max_uint k usage p = ground (
  arith,
  mul-le (cost_of k usage) k.commission_bps 2000 p.1,
  cost-le-locked k usage,
  p,
  max_uint_wide,
)

module _ (C : Chain) (id usage : ℕ) (s : Contract C) where
  abbrev k : Booking
  k = booking_of id s.books.bookings

  abbrev share : ℕ
  share = cost_of k usage - commission_of k usage

  abbrev earned : Mapping ℕ
  earned = put k.supplier (amount_of k.supplier s.books.claimable + share) s.books.claimable

  -- No check of the arithmetic fails when every number of the settlement is in its range.
  settle_as_computes :
      (status : Status) (msg : Msg)
      → is_open k.status ≡ true
      → k.opened_at ≤ msg.timestamp
      → msg.timestamp - k.opened_at + settle_grace_secs ≤ max_uint
      → usage ≤ k.max_duration_secs
      → usage ≤ msg.timestamp - k.opened_at + settle_grace_secs
      → k.rate_per_hour_cents * cent ≤ max_uint
      → k.rate_per_hour_cents * cent * usage ≤ max_uint
      → cost_of k usage * k.commission_bps ≤ max_uint
      → k.locked_amount ≤ amount_of k.consumer s.books.locked_of
      → cost_of k usage ≤ amount_of k.consumer s.books.escrow
      → commission_of k usage ≤ cost_of k usage
      → amount_of k.supplier s.books.claimable + share ≤ max_uint
      → amount_of s.treasury earned + commission_of k usage ≤ max_uint
      → settle_as C id usage status msg s ≡ returned (settled_state C id usage status s)
  unfolding settle_as quote
  settle_as_computes status msg o h1 h2 h3 h4 h5 h6 h7 h8 h9 h10 h11 h12 =
      let elapsed = msg.timestamp - k.opened_at + settle_grace_secs in
      let inside : ltb (max_allowed C k elapsed) usage ≡ false = ground (arith, h3, h4) in
      elim (Bool-cases (ltb 0 (commission_of k usage))) [
        | inl some_commission ↦ simp (
          o,
          sub_returns _ _ h1,
          add_returns _ _ h2,
          inside,
          mul_returns _ _ h5,
          mul_returns _ _ h6,
          mul_returns _ _ h7,
          sub_returns _ _ h8,
          sub_returns _ _ h9,
          sub_returns _ _ h10,
          add_returns _ _ h11,
          some_commission,
          add_returns _ _ h12,
        )
        | inr no_commission ↦ simp (
          o,
          sub_returns _ _ h1,
          add_returns _ _ h2,
          inside,
          mul_returns _ _ h5,
          mul_returns _ _ h6,
          mul_returns _ _ h7,
          sub_returns _ _ h8,
          sub_returns _ _ h9,
          sub_returns _ _ h10,
          add_returns _ _ h11,
          no_commission,
        )
      ]

  pub settle_as-eq-returned :
      (status : Status) (msg : Msg) {t : Contract C}
      → settle_as C id usage status msg s ≡ returned t
      → (is_open k.status ≡ true)
        × (usage ≤ k.max_duration_secs)
        × (usage ≤ msg.timestamp - k.opened_at + settle_grace_secs)
        × (t ≡ settled_state C id usage status s)
  unfolding settle_as add sub mul quote
  settle_as-eq-returned status msg h = (ground arith, ground arith, ground arith, ground arith)

  module _ (T : IsToken C) (sound : IsSound s.books (C.balance_of C.self s.ledger)) where
    -- What the supplier and the treasury are owed fits into a `uint256`.
    owed_fits :
        is_open k.status ≡ true
        → (amount_of k.supplier s.books.claimable + share ≤ max_uint)
          × (amount_of s.treasury earned + commission_of k usage ≤ max_uint)
    owed_fits o =
        let covers : cost_of k usage ≤ sum s.books.escrow = omega (
          arith,
          cost-le-locked k usage,
          lock-le s.books sound id o,
          sound.covered k.consumer,
          at-le-total (λ n. n) 0 k.consumer s.books.escrow refl,
        ) in
        let all : sum s.books.claimable + cost_of k usage ≤ max_uint =
          omega (arith, covers, sound.solvent, T.bounded C.self s.ledger) in
        let part : commission_of k usage ≤ cost_of k usage =
          omega
            (arith, commission_capped (cost_of k usage) k.commission_bps (sound.priced id o).1) in
        (
          omega (arith, all, at-le-total (λ n. n) 0 k.supplier s.books.claimable refl),
          omega (
            arith,
            all,
            part,
            at-le-total (λ n. n) 0 s.treasury earned refl,
            total-put (λ n. n) 0 k.supplier (amount_of k.supplier s.books.claimable + share)
                s.books.claimable refl,
          ),
        )

    pub settle_as_returns :
        (status : Status) (msg : Msg)
        → is_open k.status ≡ true
        → k.opened_at ≤ msg.timestamp
        → msg.timestamp < 2 ^ 64
        → usage ≤ k.max_duration_secs
        → usage ≤ msg.timestamp - k.opened_at + settle_grace_secs
        → settle_as C id usage status msg s ≡ returned (settled_state C id usage status s)
    settle_as_returns status msg o after early within elapsed =
        let p = sound.priced id o in
        settle_as_computes status msg o after (omega (arith, early, max_uint_wide)) within elapsed
          p.2
          (omega
            (arith, p.3, mul-le (k.rate_per_hour_cents * cent) usage k.max_duration_secs within))
          (commission-le-max_uint k usage p) (lock-le s.books sound id o)
          (omega
            (arith, cost-le-locked k usage, lock-le s.books sound id o, sound.covered k.consumer))
          (omega (arith, commission_capped (cost_of k usage) k.commission_bps p.1)) (owed_fits o).0
          (owed_fits o).1
