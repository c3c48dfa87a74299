-- ===== src/Prelude/Digits.antt =====
-- Decimal numerals read back: the number that the digits of a text spell, other characters skipped.
use Prim.Native.Nat.{ℕ, zero, suc, ◌-◌, ◌+◌, ◌*◌, ◌/◌, ◌%◌, ◌<◌}
use Prim.Native.Char.{code}
use Prim.Native.String.{String, [], ◌∷◌}
use mathlib.Core.Path.{◌≡◌, refl, ◌∙◌, ap}
use mathlib.Core.Bool.{Bool, ◌&&◌}
use mathlib.Core.Logic.{inl, inr}
use native.Mathlib.Omega.{arith}
use text.Mathlib.TextLemmas.{nil-append, cons-append}
use claw_compute.Prelude.Tests.{leb, ltb, if◌then◌else◌, Bool-cases}
use claw_compute.Prelude.Texts.{◌<>◌, digit, show_fuel, show, pad_two, group_fuel, show_grouped}

abbrev is_digit : ℕ → Bool
is_digit c = leb 48 c && leb c 57

-- One more character.
abbrev pub read_one : ℕ → ℕ → ℕ
read_one n c = if is_digit c then n * 10 + (c - 48) else n

unfoldable pub read_from : ℕ → String → ℕ
read_from n [] = n
read_from n (c ∷ s) = read_from (read_one n (code c)) s

-- The number that the digits of a text spell.
unfoldable pub digits_value : String → ℕ
unfolding read_from
digits_value s = read_from 0 s

pub read_from-append : (n : ℕ) (s t : String) → read_from n (s <> t) ≡ read_from (read_from n s) t
unfolding read_from
read_from-append n [] t = ap (read_from n) (nil-append t)
read_from-append n (c ∷ s) t =
    ap (read_from n) (cons-append c s t) ∙ read_from-append (read_one n (code c)) s t

read_from-digit : (n d : ℕ) → d < 10 → read_from n (digit d) ≡ n * 10 + d
unfolding read_from digit
read_from-digit n zero h = refl
read_from-digit n (suc zero) h = refl
read_from-digit n (suc (suc zero)) h = refl
read_from-digit n (suc (suc (suc zero))) h = refl
read_from-digit n (suc (suc (suc (suc zero)))) h = refl
read_from-digit n (suc (suc (suc (suc (suc zero))))) h = refl
read_from-digit n (suc (suc (suc (suc (suc (suc zero)))))) h = refl
read_from-digit n (suc (suc (suc (suc (suc (suc (suc zero))))))) h = refl
read_from-digit n (suc (suc (suc (suc (suc (suc (suc (suc zero)))))))) h = refl
read_from-digit n (suc (suc (suc (suc (suc (suc (suc (suc (suc zero))))))))) h = refl
read_from-digit n (suc (suc (suc (suc (suc (suc (suc (suc (suc (suc d)))))))))) h =
    absurd (omega arith)

read_from-show_fuel : (f n : ℕ) → n < f → read_from 0 (show_fuel f n) ≡ n
unfolding show_fuel
read_from-show_fuel zero n h = absurd (omega arith)
read_from-show_fuel (suc f) n h = elim (Bool-cases (ltb n 10)) [
  | inl small ↦ rw small (omega (arith, read_from-digit 0 n (ground arith)))
  | inr large ↦
      rw
        (
          large,
          read_from-append,
          read_from-digit (read_from 0 (show_fuel f (n / 10))) (n % 10) (omega arith),
          read_from-show_fuel f (n / 10) (ground arith),
        )
        (omega arith)
]

-- A numeral spells its number.
pub digits_value-show : (n : ℕ) → digits_value (show n) ≡ n
unfolding digits_value show
digits_value-show n = read_from-show_fuel (suc n) n (omega arith)

pub read_from-pad_two : (n m : ℕ) → m < 100 → read_from n (pad_two m) ≡ n * 100 + m
unfolding pad_two
read_from-pad_two n m h =
    rw
      (
        read_from-append,
        read_from-digit n (m / 10 % 10) (omega arith),
        read_from-digit (n * 10 + m / 10 % 10) (m % 10) (omega arith),
      )
      (omega arith)

read_comma : (n : ℕ) → read_from n "," ≡ n
unfolding read_from
read_comma n = refl

read_group :
    (front : String) (n : ℕ)
    → read_from 0 front ≡ n / 1000
    → read_from 0 (front <> "," <> digit (n / 100 % 10) <> pad_two (n % 100)) ≡ n
read_group front n h =
    rw
      (
        read_from-append 0 front,
        h,
        read_from-append (n / 1000) ",",
        read_comma,
        read_from-append (n / 1000) (digit (n / 100 % 10)),
        read_from-digit (n / 1000) (n / 100 % 10) (omega arith),
        read_from-pad_two (n / 1000 * 10 + n / 100 % 10) (n % 100) (omega arith),
      )
      (omega arith)

read_from-group_fuel : (f n : ℕ) → n < f → read_from 0 (group_fuel f n) ≡ n
unfolding group_fuel digits_value
read_from-group_fuel zero n h = absurd (omega arith)
read_from-group_fuel (suc f) n h = elim (Bool-cases (ltb n 1000)) [
  | inl small ↦ rw small (digits_value-show n)
  | inr large ↦
      rw large
        (read_group (group_fuel f (n / 1000)) n (read_from-group_fuel f (n / 1000) (ground arith)))
]

-- So does one with commas.
pub digits_value-show_grouped : (n : ℕ) → digits_value (show_grouped n) ≡ n
unfolding digits_value show_grouped
digits_value-show_grouped n = read_from-group_fuel (suc n) n (omega arith)
