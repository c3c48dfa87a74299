-- ===== src/Pricing/Laws.antt =====
-- The pricing page (web/src/lib/pricing.ts) against the escrow contract.
use claw_compute.Prelude.{ℕ, ◌+◌, ◌-◌, ◌*◌, ◌/◌, ◌≤◌, ◌≡◌, ap, arith}
use claw_compute.Escrow.Mapping.{at-put, put}
use claw_compute.Escrow.Result.{returned}
use claw_compute.Escrow.Contract.{Chain, Contract, Msg, settled, amount_of, booking_of}
use claw_compute.Escrow.Calls.{settle_booking, settle_as}
use claw_compute.Escrow.Price.{cost_of, commission_of}
use claw_compute.Escrow.Settle.{settle_as-eq-returned}
use claw_compute.Pricing.{commission_percent, supplier_keep_percent}

module _ (C : Chain) where
  -- A settlement of a booking that was opened at the commission that the pricing page names: the supplier can
  -- claim at least the share of the cost that the page promises.
  pub settlement_keeps :
      (id usage : ℕ) (msg : Msg) (s t : Contract C)
      → settle_booking C id usage msg s ≡ returned t
      → (booking_of id s.books.bookings).commission_bps ≡ 100 * commission_percent
      → 100 * amount_of (booking_of id s.books.bookings).supplier s.books.claimable
          + supplier_keep_percent * cost_of (booking_of id s.books.bookings) usage
        ≤ 100 * amount_of (booking_of id s.books.bookings).supplier t.books.claimable
  unfolding settle_booking
  settlement_keeps id usage msg s t h bps =
      let k = booking_of id s.books.bookings in
      let cost = cost_of k usage in
      let commission = commission_of k usage in
      let settles : settle_as C id usage settled msg s ≡ returned t = ground arith in
      let e = (settle_as-eq-returned C id usage s settled msg settles).3 in
      let credited = amount_of k.supplier s.books.claimable + (cost - commission) in
      let earned = put k.supplier credited s.books.claimable in
      let rate : commission ≡ cost * 1500 / 10000 = ap (λ b. cost * b / 10000) bps in
      let gets : amount_of k.supplier s.books.claimable + (cost - commission)
          ≤ amount_of k.supplier t.books.claimable =
        ground (
          arith,
          ap (λ c. amount_of k.supplier c.books.claimable) e,
          at-put 0 k.supplier k.supplier credited s.books.claimable,
          at-put 0 k.supplier s.treasury (amount_of s.treasury earned + commission) earned,
        ) in
      omega (arith, rate, gets)
