-- ===== src/Tests/Escrow.antt =====
-- A contract on a token and a few calls: the runs that the theorems on the escrow contract are tried
-- on.
use claw_compute.Prelude.{ℕ, ◌+◌, ◌*◌, ◌≤◌, ◌≡◌, refl, false, [], ◌∷◌, arith}
use claw_compute.Escrow.Result.{
  Result, returned, reverted, max_uint, add, sub, mul, booking_not_open,
}
use claw_compute.Escrow.Contract.{Contract, Msg, amount_of, booking_of, settled, cancelled}
use claw_compute.Tests.Token.{balance, small_chain, small_chain-IsToken, small_chain-IsPaying}
use claw_compute.Escrow.Calls
use claw_compute.Escrow.Calls.{quote, free_escrow_of, ceil_div}
use claw_compute.Escrow.Refines.{held, Does}
use claw_compute.Escrow.System
use claw_compute.Escrow.System.{
  Call, execute, Step, called, Reach, start, later, IsValid, Reach-IsValid, execute-Does,
}
use claw_compute.Escrow.Settle.{settled_state}
use claw_compute.Escrow.Outcome.{settlement_returns}
use claw_compute.Escrow.Exit.{withdraw_unused_returns, claim_returns}
use claw_compute.Pricing.Laws.{settlement_keeps}
use claw_compute.Escrow.Lifecycle.{here, next, IsAfter, Trace-IsAfter, settled_once}

abbrev pub Vault : Type 0
Vault = Contract small_chain

abbrev or_else : Result Vault → Vault → Vault
or_else (returned t) s = t
or_else (reverted e) s = s

abbrev new_vault : Vault
new_vault = record {
  treasury = 30;
  commission_bps = 1500;
  books = record { escrow = []; locked_of = []; claimable = []; bookings = [] };
  guards = false;
  ledger = (10, 8000000) ∷ [];
  events = [];
}

abbrev by : ℕ → ℕ → Msg
by account time = record { sender = account; timestamp = time }

abbrev run : Call → Msg → Vault → Vault
run c m s = or_else (execute small_chain c m s) s

-- Account 10 deposits 5 USDC, and the settler opens an hour at 4.80 USDC with the supplier 20.
unfoldable pub funded_vault : Vault
unfolding Calls.deposit add max_uint
funded_vault = run (System.deposit 5000000) (by 10 900) new_vault

unfoldable pub open_vault : Vault
unfolding Calls.open_booking add mul sub free_escrow_of ceil_div max_uint
open_vault = run (System.open_booking 7 10 20 480 3600) (by 2 1000) funded_vault

abbrev settled_vault : Vault
unfolding Calls.settle_booking Calls.settle_as quote add mul sub max_uint
settled_vault = run (System.settle_booking 7 1800) (by 2 2800) open_vault

settled_vault_amounts :
    (amount_of 10 settled_vault.books.escrow ≡ 2600000)
    × (amount_of 20 settled_vault.books.claimable ≡ 2040000)
    × (amount_of 30 settled_vault.books.claimable ≡ 360000)
unfolding settled_vault open_vault funded_vault
settled_vault_amounts = (refl, refl, refl)

new_vault-Reach : Reach small_chain new_vault
unfolding Calls.deploy
new_vault-Reach = start 50 30 1500 1 2 false ((10, 8000000) ∷ []) refl

funded_vault-Reach : Reach small_chain funded_vault
unfolding Calls.deposit add max_uint funded_vault
funded_vault-Reach =
    later new_vault-Reach (called (System.deposit 5000000) (by 10 900) (λ e. ground arith) refl)

pub open_vault-Reach : Reach small_chain open_vault
unfolding Calls.open_booking Calls.deposit add mul sub free_escrow_of ceil_div max_uint funded_vault
    open_vault
open_vault-Reach =
    later funded_vault-Reach
      (called (System.open_booking 7 10 20 480 3600) (by 2 1000) (λ e. ground arith) refl)

settled-Step : Step small_chain open_vault settled_vault
unfolding Calls.settle_booking Calls.settle_as quote Calls.open_booking Calls.deposit add mul sub
    free_escrow_of ceil_div max_uint funded_vault open_vault settled_vault
settled-Step = called (System.settle_booking 7 1800) (by 2 2800) (λ e. ground arith) refl

-- The witnesses.
execute-Does_example : Does small_chain small_chain-IsToken open_vault settled_vault
unfolding Calls.settle_booking Calls.settle_as quote Calls.open_booking Calls.deposit add mul sub
    free_escrow_of ceil_div max_uint funded_vault open_vault settled_vault
execute-Does_example =
    execute-Does small_chain small_chain-IsToken (System.settle_booking 7 1800) (by 2 2800)
      open_vault settled_vault (Reach-IsValid small_chain small_chain-IsToken open_vault-Reach)
      (λ e. ground arith) refl

Reach-IsValid_example : IsValid small_chain settled_vault
Reach-IsValid_example =
    Reach-IsValid small_chain small_chain-IsToken (later open_vault-Reach settled-Step)

settlement_returns_example :
    (Calls.settle_booking small_chain 7 1800 (by 2 2800) open_vault
      ≡ returned (settled_state small_chain 7 1800 settled open_vault))
    × (Calls.cancel_booking small_chain 7 1800 (by 2 2800) open_vault
        ≡ returned (settled_state small_chain 7 1800 cancelled open_vault))
unfolding Calls.open_booking Calls.deposit add mul sub free_escrow_of ceil_div max_uint funded_vault
    open_vault
settlement_returns_example =
    settlement_returns small_chain small_chain-IsToken 7 1800 (by 2 2800) open_vault-Reach refl refl
      (omega arith) (omega arith) (omega arith) (omega arith)

withdraw_unused_returns_example :
    (t : Vault) × (Calls.withdraw_unused small_chain 200000 (by 10 1500) open_vault ≡ returned t)
    × (amount_of 10 t.books.escrow + 200000 ≡ amount_of 10 open_vault.books.escrow)
    × (held small_chain small_chain-IsToken t + 200000
        ≡ held small_chain small_chain-IsToken open_vault)
    × (balance 10 t.ledger ≡ balance 10 open_vault.ledger + 200000)
unfolding Calls.open_booking Calls.deposit add mul sub free_escrow_of ceil_div max_uint funded_vault
    open_vault
withdraw_unused_returns_example =
    withdraw_unused_returns small_chain small_chain-IsToken small_chain-IsPaying (by 10 1500) 200000
      open_vault-Reach (λ e. ground arith) (λ e. ground arith) (omega arith) (omega arith)

claim_returns_example :
    (t : Vault) × (Calls.claim small_chain (by 20 2900) settled_vault ≡ returned t)
    × (amount_of 20 t.books.claimable ≡ 0)
    × (held small_chain small_chain-IsToken t + amount_of 20 settled_vault.books.claimable
        ≡ held small_chain small_chain-IsToken settled_vault)
    × (balance 20 t.ledger
        ≡ balance 20 settled_vault.ledger + amount_of 20 settled_vault.books.claimable)
unfolding Calls.settle_booking Calls.settle_as quote Calls.open_booking Calls.deposit add mul sub
    free_escrow_of ceil_div max_uint funded_vault open_vault settled_vault
claim_returns_example =
    claim_returns small_chain small_chain-IsToken small_chain-IsPaying (by 20 2900)
      (later open_vault-Reach settled-Step) (λ e. ground arith) (λ e. ground arith) (omega arith)

Trace-IsAfter_example :
    IsAfter (booking_of 7 open_vault.books.bookings) (booking_of 7 settled_vault.books.bookings)
Trace-IsAfter_example =
    Trace-IsAfter small_chain small_chain-IsToken 7 open_vault-Reach (next here settled-Step)

settled_once_example :
    (Calls.settle_booking small_chain 7 60 (by 2 3000) settled_vault
      ≡ reverted (booking_not_open 7))
    × (Calls.cancel_booking small_chain 7 60 (by 2 3000) settled_vault
        ≡ reverted (booking_not_open 7))
unfolding Calls.settle_booking Calls.settle_as quote Calls.open_booking Calls.deposit add mul sub
    free_escrow_of ceil_div max_uint funded_vault open_vault settled_vault
settled_once_example =
    settled_once small_chain small_chain-IsToken 7 1800 60 (by 2 2800) (by 2 3000) open_vault-Reach
      (λ e. ground arith) refl here refl

settlement_keeps_example :
    100 * amount_of 20 open_vault.books.claimable + 85 * 2400000
    ≤ 100 * amount_of 20 settled_vault.books.claimable
unfolding Calls.settle_booking Calls.settle_as quote Calls.open_booking Calls.deposit add mul sub
    free_escrow_of ceil_div max_uint funded_vault open_vault settled_vault
settlement_keeps_example =
    settlement_keeps small_chain 7 1800 (by 2 2800) open_vault settled_vault refl refl
