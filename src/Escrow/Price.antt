-- ===== src/Escrow/Price.antt =====
-- What a booking can cost: the lock of openBooking, the cost and the commission of _settle in
-- contracts/src/ClawEscrow.sol.
use claw_compute.Prelude.{ℕ, zero, suc, ◌*◌, ◌/◌, ◌≤◌, ◌≡◌, ltb, if◌then◌else◌, arith}
use claw_compute.Escrow.Contract.{Booking}
use claw_compute.Escrow.Calls.{cent, max_commission_bps, ceil_div}
use claw_compute.Escrow.Effect.{IsPriced}

-- What a settlement charges for the usage.
abbrev pub cost_of : Booking → ℕ → ℕ
cost_of k usage =
    let quoted = k.rate_per_hour_cents * cent * usage / 3600 in
    if ltb k.locked_amount quoted then k.locked_amount else quoted

abbrev pub commission_of : Booking → ℕ → ℕ
commission_of k usage = cost_of k usage * k.commission_bps / 10000

pub mul-le : (a b c : ℕ) → b ≤ c → a * b ≤ a * c
mul-le zero b c h = omega arith
mul-le (suc a) b c h = grind (arith, mul-le a b c h)

-- The commission is a fifth of the cost at most.
pub commission_capped : (cost bps : ℕ) → bps ≤ max_commission_bps → 5 * (cost * bps / 10000) ≤ cost
commission_capped cost bps h = omega (arith, mul-le cost bps 2000 h)

-- For a usage within the booked time the cap of the settlement never bites: the quote is the cost.
pub cost_uncapped :
    (k : Booking) (usage : ℕ)
    → IsPriced k
    → usage ≤ k.max_duration_secs
    → cost_of k usage ≡ k.rate_per_hour_cents * cent * usage / 3600
unfolding ceil_div
cost_uncapped k usage p h =
    ground (arith, mul-le (k.rate_per_hour_cents * 10000) usage k.max_duration_secs h)
