-- ===== src/Escrow/Result.antt =====
-- How a call of the contract ends, and the checked 256-bit arithmetic of Solidity.
use Prim.Native.Nat.{◌^◌}
use claw_compute.Prelude.{ℕ, ◌+◌, ◌-◌, ◌*◌, ◌≤◌, ◌≡◌, Bool, leb, if◌then◌else◌, arith}

-- The errors of the contract, then those of the compiler and of the libraries that it inherits.
pub data Revert : Type 0 where
  zero_address zero_amount nothing_to_claim : Revert
  booking_exists booking_not_open : (booking_id : ℕ) → Revert
  insufficient_free_escrow : (requested free : ℕ) → Revert
  usage_out_of_bounds : (usage_seconds max_allowed : ℕ) → Revert
  commission_too_high : (bps : ℕ) → Revert
  panic unauthorized enforced_pause expected_pause token_failed : Revert

pub data Result (A : Type 0) : Type 0 where
  returned : A → Result A
  reverted : Revert → Result A

infixl 5 ◌>>=◌ ◌>>◌
abbrev pub ◌>>=◌ : {A B : Type 0} → Result A → (A → Result B) → Result B
returned a >>= f = f a
reverted e >>= f = reverted e

abbrev pub ◌>>◌ : {A B : Type 0} → Result A → Result B → Result B
m >> k = m >>= λ _. k

-- `if (wrong) revert e;`
abbrev pub revert_if : Bool → Revert → Result (Unit {0})
revert_if wrong e = if wrong then reverted e else returned tt

-- The largest `uint256`.
unfoldable pub max_uint : ℕ
max_uint = 2 ^ 256 - 1

unfoldable pub add : ℕ → ℕ → Result ℕ
add a b = if leb (a + b) max_uint then returned (a + b) else reverted panic

unfoldable pub sub : ℕ → ℕ → Result ℕ
sub a b = if leb b a then returned (a - b) else reverted panic

unfoldable pub mul : ℕ → ℕ → Result ℕ
mul a b = if leb (a * b) max_uint then returned (a * b) else reverted panic

-- What a successful operation returns, and when it is successful.
pub add-eq-returned : (a b : ℕ) {c : ℕ} → add a b ≡ returned c → (c ≡ a + b) × (a + b ≤ max_uint)
unfolding add
add-eq-returned a b h = ground arith

pub sub-eq-returned : (a b : ℕ) {c : ℕ} → sub a b ≡ returned c → (c ≡ a - b) × (b ≤ a)
unfolding sub
sub-eq-returned a b h = ground arith

pub mul-eq-returned : (a b : ℕ) {c : ℕ} → mul a b ≡ returned c → c ≡ a * b
unfolding mul
mul-eq-returned a b h = ground arith

pub add_returns : (a b : ℕ) → a + b ≤ max_uint → add a b ≡ returned (a + b)
unfolding add
add_returns a b h = ground arith

pub sub_returns : (a b : ℕ) → b ≤ a → sub a b ≡ returned (a - b)
unfolding sub
sub_returns a b h = ground arith

pub mul_returns : (a b : ℕ) → a * b ≤ max_uint → mul a b ≡ returned (a * b)
unfolding mul
mul_returns a b h = ground arith

pub max_uint_wide : 2 ^ 255 ≤ max_uint
unfolding max_uint
max_uint_wide = omega arith
