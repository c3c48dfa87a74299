-- ===== src/Locale.antt =====
-- What the client takes from the engine's locale and number formats, as parameters, and prices.
use claw_compute.Prelude.{ℕ, String, ◌/◌, ◌%◌, ◌<>◌, show, pad_two}
use claw_compute.Prelude.Int.{ℤ}

pub record Locale : Type 0 where
  -- `new Date(t).toLocaleString()`
  pub date_time : String → String
  -- The same with month, day, hour and minute only.
  pub short_date : String → String
  -- `(n / 100).toFixed(1)`
  pub to_fixed_one : ℕ → String
  -- `${(part / whole) * 100}%`
  pub percent_width : ℤ → ℕ → String

-- `(cents / 100).toFixed(2)`, exact for a whole number of cents below 2⁵³.
unfoldable pub price : ℕ → String
unfolding show pad_two
price cents = show (cents / 100) <> "." <> pad_two (cents % 100)
