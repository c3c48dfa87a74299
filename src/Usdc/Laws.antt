-- ===== src/Usdc/Laws.antt =====
-- What the printed amounts and durations say (web/src/lib/usdc.ts).
use claw_compute.Prelude.{
  ℕ, ◌+◌, ◌*◌, ◌/◌, ◌%◌, ◌≤◌, ◌<◌, ◌≡◌, ◌↔◌, refl, some, arith, show, show_grouped, ◌<>◌, eqb, ltb,
  if◌then◌else◌, false,
}
use claw_compute.Prelude.Int.{pos}
use claw_compute.Prelude.Digits.{
  digits_value, read_from, read_from-append, read_from-pad_two, digits_value-show_grouped,
}
use claw_compute.Usdc.{cents, dollars, format_usdc, hours, minutes, format_duration}

read_dot : (n : ℕ) → read_from n "." ≡ n
unfolding read_from
read_dot n = refl

read_dollar : read_from 0 "$" ≡ 0
unfolding read_from
read_dollar = refl

digits_value-dollars : (units : ℕ) → digits_value (dollars units) ≡ cents units
unfolding digits_value dollars
digits_value-dollars units =
    rw
      (
        read_from-append 0 "$",
        read_dollar,
        read_from-append 0 (show_grouped (cents units / 100)),
        digits_value-show_grouped (cents units / 100),
        read_from-append (cents units / 100) ".",
        read_dot,
        read_from-pad_two (cents units / 100) (cents units % 100) (omega arith),
      )
      (omega arith)

-- The digits of a printed amount spell its cents, and those are the amount rounded to the nearest
-- hundredth of a dollar: off by half a cent at most, and upwards at the half.
format_usdc_cents :
    (units : ℕ)
    → (digits_value (format_usdc (some (pos units))) * 10000 ≤ units + 5000)
      × (units < digits_value (format_usdc (some (pos units))) * 10000 + 5000)
unfolding format_usdc cents
format_usdc_cents units = rw (digits_value-dollars units) (omega arith, omega arith)

-- From a minute on, the hours and minutes that are printed are within half a minute of the duration.
format_duration_parts :
    (seconds : ℕ)
    → (hours seconds * 3600 + minutes seconds * 60 ≤ seconds + 30)
      × (seconds < hours seconds * 3600 + minutes seconds * 60 + 30)
      × ((minutes seconds ≡ 60) ↔ (3570 ≤ seconds % 3600))
unfolding hours minutes
format_duration_parts seconds = (omega arith, omega arith, (λ e. omega arith, λ e. omega arith))

minutes_sixty : (seconds : ℕ) → 3570 ≤ seconds % 3600 → minutes seconds ≡ 60
unfolding minutes
minutes_sixty seconds h = omega arith

no_minute : (seconds : ℕ) → 3570 ≤ seconds % 3600 → ltb seconds 60 ≡ false
no_minute seconds h = ground arith

-- A duration whose seconds past the hour round up to a whole hour is printed with sixty minutes: "60m"
-- below the first hour, and "… 60m" after it, where the next hour is meant.
pub format_duration_sixty :
    (seconds : ℕ)
    → 3570 ≤ seconds % 3600
    → format_duration (some seconds)
      ≡ (if eqb (hours seconds) 0 then "60m" else show (hours seconds) <> "h " <> "60" <> "m")
unfolding format_duration show
format_duration_sixty seconds h = rw (no_minute seconds h, minutes_sixty seconds h) refl
