-- ===== src/Meter.antt =====
-- landing/assets/meter.js: the escrow meter of the landing page. A rate is in cents for an hour and a
-- time in minutes; amounts are exact, in parts of 1/600000 of a dollar. What `paint` writes into the
-- page is left out, but for what it is called with.
pub mod Laws
use claw_compute.Prelude.{
  ℕ, ◌+◌, ◌-◌, ◌*◌, ◌/◌, ◌%◌, Bool, true, false, not, Option, none, some, String, ◌<>◌, ltb, eqb,
  show, if◌then◌else◌,
}
use claw_compute.Prelude.Int.{ℤ, sub_ℕ}

pub record Booking : Type 0 where
  pub machine : String
  pub workload : String
  pub rate : ℕ
  pub reserved : ℕ
  pub used : ℕ

-- Percent.
abbrev pub commission : ℕ
commission = 15

-- `BOOKINGS`, by index.
unfoldable pub booking_at : ℕ → Booking
booking_at index =
    if eqb index 0
    then record {
      machine = "M3 Max · 64 GB";
      workload = "inference";
      rate = 480;
      reserved = 60;
      used = 50;
    }
    else if eqb index 1
    then record {
      machine = "M2 Pro · 32 GB";
      workload = "sandbox";
      rate = 40;
      reserved = 240;
      used = 195;
    }
    else record {
      machine = "M4 Max · 128 GB";
      workload = "inference";
      rate = 620;
      reserved = 90;
      used = 90;
    }

abbrev pub bookings_length : ℕ
bookings_length = 3

unfoldable pub duration : ℕ → String
duration n =
    if ltb n 60
    then show n <> "m"
    else if eqb (n % 60) 0
    then show (n / 60) <> "h"
    else show (n / 60) <> "h " <> show (n % 60) <> "m"

pub record Sums : Type 0 where
  pub locked : ℕ
  pub cost : ℕ
  pub fee : ℕ
  pub supplier : ℕ
  pub refund : ℤ

unfoldable pub sums_of : Booking → Sums
sums_of b =
    let cost = b.rate * b.used * 100 in
    let fee = b.rate * b.used * commission in
    record {
      locked = b.rate * b.reserved * 100;
      cost = cost;
      fee = fee;
      supplier = cost - fee;
      refund = sub_ℕ (b.rate * b.reserved * 100) cost;
    }

-- What `paint` is called with: the progress in the phase is a quotient.
pub data Paint : Type 0 where
  lock : (booking progress whole : ℕ) → Paint
  run : (booking progress whole : ℕ) → Paint
  settle : (booking : ℕ) → Paint

-- Times are in milliseconds. `header` is the booking that the head names.
pub record Meter : Type 0 where
  pub index : ℕ
  pub started_at : Option ℕ
  pub running : Bool
  pub frame : Bool
  pub header : ℕ
  pub painted : Option Paint

abbrev pub initial : Meter
initial = record {
  index = 0;
  started_at = none;
  running = false;
  frame = false;
  header = 0;
  painted = none;
}

abbrev pub begun : ℕ → Option ℕ → ℕ
begun now none = now
begun now (some time) = time

abbrev next_of : ℕ → ℕ
next_of index = (index + 1) % bookings_length

abbrev pub shown : ℕ → (t : ℕ) → Meter → Meter
shown now t m =
    if ltb t 1200
    then record m { painted = some (lock m.index t 1200) }
    else if ltb t 7600
    then record m { painted = some (run m.index (t - 1200) 6400) }
    else if ltb t 12400
    then record m { painted = some (settle m.index) }
    else record m { index = next_of m.index; started_at = some now; header = next_of m.index }

-- A frame of the animation.
unfoldable pub tick : ℕ → Meter → Meter
tick now m =
    if not m.running
    then m
    else let time = begun now m.started_at in
      record (shown now (now - time) (record m { started_at = some time })) { frame = true }

unfoldable pub start : Meter → Meter
start m = if m.running then m else record m { running = true; started_at = none; frame = true }

unfoldable pub stop : Meter → Meter
stop m = record m { running = false; frame = false }
