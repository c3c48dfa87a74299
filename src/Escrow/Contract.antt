-- ===== src/Escrow/Contract.antt =====
-- The storage of contracts/src/ClawEscrow.sol, and what it stands on: the token, and the roles and the
-- pause switch that it inherits.
use claw_compute.Prelude.{
  ℕ, ◌+◌, ◌≡◌, ◌≢◌, ◌≤◌, Bool, true, false, Option, some, List, ◌&&◌, eqb, if◌then◌else◌,
}
use claw_compute.Escrow.Mapping.{Mapping, at, total}
use claw_compute.Escrow.Result.{max_uint}

-- An `address` and a `bytes32` are numbers; the zero address is 0.
pub data Status : Type 0 where
  unset open_ settled cancelled : Status

pub record Booking : Type 0 where
  pub consumer : ℕ
  pub supplier : ℕ
  pub rate_per_hour_cents : ℕ
  pub locked_amount : ℕ
  pub opened_at : ℕ
  pub max_duration_secs : ℕ
  pub commission_bps : ℕ
  pub status : Status

pub data Role : Type 0 where
  default_admin_role settler_role : Role

pub data Event : Type 0 where
  deposited withdrawn claimed : (account amount : ℕ) → Event
  booking_opened : (booking_id : ℕ) → Booking → Event
  booking_settled :
      (booking_id consumer supplier usage_seconds cost commission : ℕ) → (cancelled : Bool) → Event
  commission_updated : (bps : ℕ) → Event
  treasury_updated : (treasury : ℕ) → Event

-- The code that the contract calls and does not hold: the USDC token with its ledger, where a failed
-- transfer reverts (`SafeERC20`), and `AccessControl` with `Pausable`.
pub record Chain : Type 1 where
  pub self : ℕ
  pub Ledger : Type 0
  pub balance_of : ℕ → Ledger → ℕ
  pub transfer_from : (from to amount : ℕ) → Ledger → Option Ledger
  pub Guards : Type 0
  pub has_role : Role → ℕ → Guards → Bool
  pub grant_role : Role → ℕ → Guards → Guards
  pub is_paused : Guards → Bool
  pub pause : Guards → Option Guards
  pub unpause : Guards → Option Guards

-- What the documentation of ERC-20 says of a transfer that succeeds, as far as the contract's own
-- balance goes, and that a balance is a `uint256`.
pub record IsToken (C : Chain) : Type 0 where
  pub received :
      (from amount : ℕ) (l : C.Ledger) {l' : C.Ledger}
      → from ≢ C.self
      → C.transfer_from from C.self amount l ≡ some l'
      → C.balance_of C.self l' ≡ C.balance_of C.self l + amount
  pub sent :
      (to amount : ℕ) (l : C.Ledger) {l' : C.Ledger}
      → to ≢ C.self
      → C.transfer_from C.self to amount l ≡ some l'
      → C.balance_of C.self l' + amount ≡ C.balance_of C.self l
  pub bounded : (account : ℕ) (l : C.Ledger) → C.balance_of account l ≤ max_uint

-- The mappings of the contract.
pub record Books : Type 0 where
  pub escrow : Mapping ℕ
  pub locked_of : Mapping ℕ
  pub claimable : Mapping ℕ
  pub bookings : Mapping Booking

pub record Contract (C : Chain) : Type 0 where
  pub treasury : ℕ
  pub commission_bps : ℕ
  pub books : Books
  pub guards : C.Guards
  pub ledger : C.Ledger
  pub events : List Event

pub record Msg : Type 0 where
  pub sender : ℕ
  pub timestamp : ℕ

abbrev pub no_booking : Booking
no_booking = record {
  consumer = 0;
  supplier = 0;
  rate_per_hour_cents = 0;
  locked_amount = 0;
  opened_at = 0;
  max_duration_secs = 0;
  commission_bps = 0;
  status = unset;
}

abbrev pub is_unset : Status → Bool
is_unset unset = true
is_unset _ = false

abbrev pub is_open : Status → Bool
is_open open_ = true
is_open _ = false

abbrev pub is_cancelled : Status → Bool
is_cancelled cancelled = true
is_cancelled _ = false

-- `mapping(address => uint256)[account]`
abbrev pub amount_of : ℕ → Mapping ℕ → ℕ
amount_of = at 0

abbrev pub booking_of : ℕ → Mapping Booking → Booking
booking_of = at no_booking

abbrev pub sum : Mapping ℕ → ℕ
sum = total (λ n. n)

-- What a booking reserves of a consumer's escrow.
abbrev pub reserved : ℕ → Booking → ℕ
reserved consumer b = if is_open b.status && eqb b.consumer consumer then b.locked_amount else 0
