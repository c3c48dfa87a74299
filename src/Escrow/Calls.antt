-- ===== src/Escrow/Calls.antt =====
-- The functions of contracts/src/ClawEscrow.sol. The calls are atomic: a revert undoes all that its
-- call wrote, so `reverted` carries no state. The token runs no code of its callers, so none of them
-- re-enters.
use Prim.Native.Nat.{◌^◌}
use claw_compute.Prelude.{
  ℕ, ◌+◌, ◌-◌, ◌/◌, ◌%◌, not, ◌||◌, Option, none, some, [], ◌∷◌, ◌++◌, eqb, ltb, if◌then◌else◌,
}
use claw_compute.Escrow.Mapping.{put}
use claw_compute.Escrow.Result.{
  Revert, zero_address, zero_amount, nothing_to_claim, booking_exists, booking_not_open,
  insufficient_free_escrow, usage_out_of_bounds, commission_too_high, unauthorized, enforced_pause,
  expected_pause, token_failed, Result, returned, reverted, ◌>>=◌, ◌>>◌, revert_if, add, sub, mul,
}
use claw_compute.Escrow.Contract.{
  Status, open_, settled, cancelled, Booking, Role, default_admin_role, settler_role, Event,
  deposited, withdrawn, claimed, booking_opened, booking_settled, commission_updated,
  treasury_updated, Chain, Books, Contract, Msg, is_unset, is_open, is_cancelled, amount_of,
  booking_of,
}

-- Base units of USDC in a cent.
abbrev pub cent : ℕ
cent = 10000

abbrev pub max_commission_bps : ℕ
max_commission_bps = 2000

abbrev pub settle_grace_secs : ℕ
settle_grace_secs = 300

-- `_ceilDiv`
unfoldable pub ceil_div : ℕ → ℕ → ℕ
ceil_div a b = if eqb a 0 then 0 else (a - 1) / b + 1

unfoldable pub quote : ℕ → ℕ → Result ℕ
quote rate_per_hour_cents usage_seconds = do
  a ← mul rate_per_hour_cents cent
  b ← mul a usage_seconds
  returned (b / 3600)

unfoldable pub free_escrow_of : ℕ → Books → Result ℕ
free_escrow_of consumer b = sub (amount_of consumer b.escrow) (amount_of consumer b.locked_of)

module _ (C : Chain) where
  abbrev pub emit : Event → Contract C → Contract C
  emit e s = record s { events = s.events ++ (e ∷ []) }

  abbrev or_revert : {A : Type 0} → Revert → Option A → Result A
  or_revert e none = reverted e
  or_revert e (some a) = returned a

  -- `onlyRole(role)`
  abbrev only_role : Role → Msg → Contract C → Result (Unit {0})
  only_role role msg s = revert_if (not (C.has_role role msg.sender s.guards)) unauthorized

  abbrev when_not_paused : Contract C → Result (Unit {0})
  when_not_paused s = revert_if (C.is_paused s.guards) enforced_pause

  unfoldable pub deposit : ℕ → Msg → Contract C → Result (Contract C)
  unfolding add
  deposit amount msg s = do
    when_not_paused s
    revert_if (eqb amount 0) zero_amount
    raised ← add (amount_of msg.sender s.books.escrow) amount
    let books = record s.books { escrow = put msg.sender raised s.books.escrow }
    ledger ← or_revert token_failed (C.transfer_from msg.sender C.self amount s.ledger)
    returned (emit (deposited msg.sender amount) (record s { books = books; ledger = ledger }))

  unfoldable pub withdraw_unused : ℕ → Msg → Contract C → Result (Contract C)
  unfolding sub free_escrow_of
  withdraw_unused amount msg s = do
    revert_if (eqb amount 0) zero_amount
    free ← free_escrow_of msg.sender s.books
    revert_if (ltb free amount) (insufficient_free_escrow amount free)
    lowered ← sub (amount_of msg.sender s.books.escrow) amount
    let books = record s.books { escrow = put msg.sender lowered s.books.escrow }
    ledger ← or_revert token_failed (C.transfer_from C.self msg.sender amount s.ledger)
    returned (emit (withdrawn msg.sender amount) (record s { books = books; ledger = ledger }))

  unfoldable pub claim : Msg → Contract C → Result (Contract C)
  claim msg s = do
    let amount = amount_of msg.sender s.books.claimable
    revert_if (eqb amount 0) nothing_to_claim
    let books = record s.books { claimable = put msg.sender 0 s.books.claimable }
    ledger ← or_revert token_failed (C.transfer_from C.self msg.sender amount s.ledger)
    returned (emit (claimed msg.sender amount) (record s { books = books; ledger = ledger }))

  -- `uint64(block.timestamp)` keeps the last 64 bits.
  unfoldable pub open_booking :
      (booking_id consumer supplier rate_per_hour_cents max_duration_secs : ℕ)
      → Msg
      → Contract C
      → Result (Contract C)
  unfolding mul sub add free_escrow_of ceil_div
  open_booking booking_id consumer supplier rate_per_hour_cents max_duration_secs msg s = do
    only_role settler_role msg s
    when_not_paused s
    revert_if (eqb consumer 0 || eqb supplier 0) zero_address
    revert_if (eqb max_duration_secs 0) zero_amount
    revert_if (not (is_unset (booking_of booking_id s.books.bookings).status))
        (booking_exists booking_id)
    a ← mul rate_per_hour_cents cent
    worst ← mul a max_duration_secs
    let lock = ceil_div worst 3600
    free ← free_escrow_of consumer s.books
    revert_if (ltb free lock) (insufficient_free_escrow lock free)
    locked ← add (amount_of consumer s.books.locked_of) lock
    let booking : Booking = record {
      consumer = consumer;
      supplier = supplier;
      rate_per_hour_cents = rate_per_hour_cents;
      locked_amount = lock;
      opened_at = msg.timestamp % 2 ^ 64;
      max_duration_secs = max_duration_secs;
      commission_bps = s.commission_bps;
      status = open_;
    }
    let books = record s.books {
      locked_of = put consumer locked s.books.locked_of;
      bookings = put booking_id booking s.books.bookings;
    }
    returned (emit (booking_opened booking_id booking) (record s { books = books }))

  -- `min(maxDurationSecs, elapsed)`
  abbrev pub max_allowed : Booking → ℕ → ℕ
  max_allowed b elapsed = if ltb b.max_duration_secs elapsed then b.max_duration_secs else elapsed

  -- `if (commission > 0) claimable[treasury] += commission;`
  abbrev pay_treasury : ℕ → ℕ → Books → Result Books
  pay_treasury treasury commission b =
      if ltb 0 commission
      then (add (amount_of treasury b.claimable) commission >>= λ raised.
          returned (record b { claimable = put treasury raised b.claimable }))
      else returned b

  unfoldable pub settle_as : ℕ → ℕ → Status → Msg → Contract C → Result (Contract C)
  unfolding mul sub add quote
  settle_as booking_id usage_seconds final_status msg s = do
    let b = booking_of booking_id s.books.bookings
    revert_if (not (is_open b.status)) (booking_not_open booking_id)
    since ← sub msg.timestamp b.opened_at
    elapsed ← add since settle_grace_secs
    revert_if (ltb (max_allowed b elapsed) usage_seconds)
        (usage_out_of_bounds usage_seconds (max_allowed b elapsed))
    quoted ← quote b.rate_per_hour_cents usage_seconds
    let cost = if ltb b.locked_amount quoted then b.locked_amount else quoted
    product ← mul cost b.commission_bps
    let commission = product / 10000
    let bookings = put booking_id (record b { status = final_status }) s.books.bookings
    unlocked ← sub (amount_of b.consumer s.books.locked_of) b.locked_amount
    charged ← sub (amount_of b.consumer s.books.escrow) cost
    share ← sub cost commission
    earned ← add (amount_of b.supplier s.books.claimable) share
    books ← pay_treasury s.treasury commission (record {
      escrow = put b.consumer charged s.books.escrow;
      locked_of = put b.consumer unlocked s.books.locked_of;
      claimable = put b.supplier earned s.books.claimable;
      bookings = bookings;
    })
    returned (
        emit
          (booking_settled booking_id b.consumer b.supplier usage_seconds cost commission
            (is_cancelled final_status))
          (record s { books = books }))

  unfoldable pub settle_booking : ℕ → ℕ → Msg → Contract C → Result (Contract C)
  unfolding settle_as
  settle_booking booking_id usage_seconds msg s = do
    only_role settler_role msg s
    settle_as booking_id usage_seconds settled msg s

  unfoldable pub cancel_booking : ℕ → ℕ → Msg → Contract C → Result (Contract C)
  unfolding settle_as
  cancel_booking booking_id usage_seconds msg s = do
    only_role settler_role msg s
    settle_as booking_id usage_seconds cancelled msg s

  unfoldable pub set_commission_bps : ℕ → Msg → Contract C → Result (Contract C)
  set_commission_bps bps msg s = do
    only_role default_admin_role msg s
    revert_if (ltb max_commission_bps bps) (commission_too_high bps)
    returned (emit (commission_updated bps) (record s { commission_bps = bps }))

  unfoldable pub set_treasury : ℕ → Msg → Contract C → Result (Contract C)
  set_treasury treasury msg s = do
    only_role default_admin_role msg s
    revert_if (eqb treasury 0) zero_address
    returned (emit (treasury_updated treasury) (record s { treasury = treasury }))

  unfoldable pub pause : Msg → Contract C → Result (Contract C)
  pause msg s = do
    only_role default_admin_role msg s
    guards ← or_revert enforced_pause (C.pause s.guards)
    returned (record s { guards = guards })

  unfoldable pub unpause : Msg → Contract C → Result (Contract C)
  unpause msg s = do
    only_role default_admin_role msg s
    guards ← or_revert expected_pause (C.unpause s.guards)
    returned (record s { guards = guards })

  -- `constructor`
  unfoldable pub deploy :
      (usdc treasury commission_bps admin settler : ℕ) → C.Guards → C.Ledger → Result (Contract C)
  deploy usdc treasury commission_bps admin settler guards ledger = do
    revert_if (eqb usdc 0 || (eqb treasury 0 || eqb admin 0)) zero_address
    revert_if (ltb max_commission_bps commission_bps) (commission_too_high commission_bps)
    let administered = C.grant_role default_admin_role admin guards
    returned (record {
      treasury = treasury;
      commission_bps = commission_bps;
      books = record { escrow = []; locked_of = []; claimable = []; bookings = [] };
      guards =
          if eqb settler 0 then administered else C.grant_role settler_role settler administered;
      ledger = ledger;
      events = [];
    })
