-- ===== src/Meter/Laws.antt =====
-- What the escrow meter shows (landing/assets/meter.js), beside what the contract charges
-- (contracts/src/ClawEscrow.sol).
use claw_compute.Prelude.{ℕ, ◌+◌, ◌-◌, ◌*◌, ◌/◌, ◌≤◌, ◌<◌, ◌≡◌, some, List, [], ◌∷◌, arith}
use claw_compute.Prelude.Int.{pos, sub_ℕ}
use claw_compute.Escrow.Result.{returned, mul}
use claw_compute.Escrow.Calls.{quote}
use claw_compute.Meter.{begun, Booking, sums_of, Meter, shown, tick, start, stop}

parts_add_up :
    (lock used : ℕ)
    → used ≤ lock
    → (rest : ℕ) × (sub_ℕ (lock * 100) (used * 100) ≡ pos rest)
      × (used * 100 - used * 15 + used * 15 + rest ≡ lock * 100)
parts_add_up lock used h = (lock * 100 - used * 100, ground arith, omega arith)

mul_mono : (rate m n : ℕ) → m ≤ n → rate * m ≤ rate * n
mul_mono rate m n h = grind arith

-- The parts of a receipt are the lock, if the booking used no more than it reserved.
sums_add_up :
    (b : Booking)
    → b.used ≤ b.reserved
    → (rest : ℕ) × ((sums_of b).refund ≡ pos rest)
      × ((sums_of b).supplier + (sums_of b).fee + rest ≡ (sums_of b).locked)
unfolding sums_of
sums_add_up b h =
    parts_add_up (b.rate * b.reserved) (b.rate * b.used) (mul_mono b.rate b.used b.reserved h)

data Input : Type 0 where
  frame_at : ℕ → Input
  seen : Input
  unseen : Input

abbrev react : Input → Meter → Meter
react (frame_at now) m = tick now m
react seen m = start m
react unseen m = stop m

unfoldable run_meter : List Input → Meter → Meter
run_meter [] m = m
run_meter (i ∷ inputs) m = run_meter inputs (react i m)

-- The meter names the booking that it paints next, and that is one of the three.
abbrev IsShown : Meter → Type 0
IsShown m = (m.index < 3) × (m.header ≡ m.index)

shown-IsShown : (now t : ℕ) (m : Meter) → IsShown m → IsShown (shown now t m)
shown-IsShown now t m h = ground arith

react-IsShown : (i : Input) (m : Meter) → IsShown m → IsShown (react i m)
unfolding tick start stop
react-IsShown (frame_at now) m h =
    let time = begun now m.started_at in
    ground (arith, shown-IsShown now (now - time) (record m { started_at = some time }) h)
react-IsShown seen m h = ground arith
react-IsShown unseen m h = h

-- Through all frames, and whenever the meter comes into sight and goes: its head names the booking that
-- it paints next, one of the three.
run_meter-IsShown : (inputs : List Input) (m : Meter) → IsShown m → IsShown (run_meter inputs m)
unfolding run_meter
run_meter-IsShown [] m h = h
run_meter-IsShown (i ∷ inputs) m h = run_meter-IsShown inputs (react i m) (react-IsShown i m h)

quoted :
    (rate seconds : ℕ) {q : ℕ} → quote rate seconds ≡ returned q → q ≡ rate * 10000 * seconds / 3600
unfolding quote mul
quoted rate seconds h = ground arith

regroup : (rate used : ℕ) → rate * 10000 * (used * 60) ≡ rate * used * 600000
regroup rate used = grind arith

-- What the contract charges for the minutes of a booking is the cost that the meter shows, less a part
-- of a base unit: the meter does not round.
quote-sums :
    (b : Booking) {q : ℕ}
    → quote b.rate (b.used * 60) ≡ returned q
    → (q * 6 ≤ (sums_of b).cost * 10) × ((sums_of b).cost * 10 < q * 6 + 6)
unfolding sums_of
quote-sums b h =
    let e = quoted b.rate (b.used * 60) h in let r = regroup b.rate b.used in omega arith
