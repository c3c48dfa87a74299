-- ===== src/Escrow/System.antt =====
-- The contract of contracts/src/ClawEscrow.sol among its callers: calls by anyone in any order, and
-- whatever happens around it.
use mathlib.Core.Path.{subst}
use claw_compute.Prelude.{ℕ, ◌≤◌, ◌≡◌, ◌≢◌, refl, sym, arith}
use claw_compute.Escrow.Result.{Result, returned}
use claw_compute.Escrow.Contract.{Chain, IsToken, Contract, Msg, settled, cancelled}
use claw_compute.Escrow.Calls
use claw_compute.Escrow.Calls.{max_commission_bps}
use claw_compute.Escrow.Effect.{untouched}
use claw_compute.Escrow.Sound.{IsSound, no_books, no_books-IsSound, Effect-IsSound}
use claw_compute.Escrow.Refines.{
  Does, deposit-Effect, withdraw_unused-Effect, claim-Effect, open_booking-Effect, settle_as-Effect,
}

pub data Call : Type 0 where
  deposit withdraw_unused : (amount : ℕ) → Call
  claim pause unpause : Call
  open_booking : (booking_id consumer supplier rate_per_hour_cents max_duration_secs : ℕ) → Call
  settle_booking cancel_booking : (booking_id usage_seconds : ℕ) → Call
  set_commission_bps : (bps : ℕ) → Call
  set_treasury : (treasury : ℕ) → Call

module _ (C : Chain) where
  abbrev pub execute : Call → Msg → Contract C → Result (Contract C)
  execute (deposit amount) msg s = Calls.deposit C amount msg s
  execute (withdraw_unused amount) msg s = Calls.withdraw_unused C amount msg s
  execute claim msg s = Calls.claim C msg s
  execute pause msg s = Calls.pause C msg s
  execute unpause msg s = Calls.unpause C msg s
  execute (open_booking id consumer supplier rate duration) msg s =
      Calls.open_booking C id consumer supplier rate duration msg s
  execute (settle_booking id usage) msg s = Calls.settle_booking C id usage msg s
  execute (cancel_booking id usage) msg s = Calls.cancel_booking C id usage msg s
  execute (set_commission_bps bps) msg s = Calls.set_commission_bps C bps msg s
  execute (set_treasury treasury) msg s = Calls.set_treasury C treasury msg s

  -- A call by another account; or something else on the chain: others move their tokens, which
  -- cannot lower the contract's balance, and roles are granted and revoked.
  pub data Step (s t : Contract C) : Type 0 where
    called : (c : Call) (msg : Msg) → msg.sender ≢ C.self → execute c msg s ≡ returned t → Step s t
    elsewhere :
        (l : C.Ledger) (g : C.Guards)
        → C.balance_of C.self s.ledger ≤ C.balance_of C.self l
        → t ≡ record s { ledger = l; guards = g }
        → Step s t

  pub data Reach : Contract C → Type 0 where
    start :
        (usdc treasury bps admin settler : ℕ) (g : C.Guards) (l : C.Ledger) {s : Contract C}
        → Calls.deploy C usdc treasury bps admin settler g l ≡ returned s
        → Reach s
    later : {s t : Contract C} → Reach s → Step s t → Reach t

  pub record IsValid (s : Contract C) : Type 0 where
    pub sound : IsSound s.books (C.balance_of C.self s.ledger)
    pub capped : s.commission_bps ≤ max_commission_bps

  module _ (T : IsToken C) where
    -- A call that returns is an effect of the abstract machine on the accounts and the balance.
    pub execute-Does :
        (c : Call) (msg : Msg) (s t : Contract C)
        → IsValid s
        → msg.sender ≢ C.self
        → execute c msg s ≡ returned t
        → Does C T s t
    unfolding Calls.settle_booking Calls.cancel_booking Calls.set_commission_bps Calls.set_treasury
        Calls.pause Calls.unpause
    execute-Does (deposit amount) msg s t v o h = deposit-Effect C T msg s t o amount h
    execute-Does (withdraw_unused amount) msg s t v o h =
        withdraw_unused-Effect C T msg s t o amount h
    execute-Does claim msg s t v o h = claim-Effect C T msg s t o h
    execute-Does pause msg s t v o h = untouched (ground arith) (ground arith)
    execute-Does unpause msg s t v o h = untouched (ground arith) (ground arith)
    execute-Does (open_booking id consumer supplier rate duration) msg s t v o h =
        open_booking-Effect C T msg s t id consumer supplier rate duration v.capped h
    execute-Does (settle_booking id usage) msg s t v o h =
        settle_as-Effect C T msg s t id usage settled v.sound refl refl (ground arith)
    execute-Does (cancel_booking id usage) msg s t v o h =
        settle_as-Effect C T msg s t id usage cancelled v.sound refl refl (ground arith)
    execute-Does (set_commission_bps bps) msg s t v o h = untouched (ground arith) (ground arith)
    execute-Does (set_treasury treasury) msg s t v o h = untouched (ground arith) (ground arith)

    execute_capped :
        (c : Call) (msg : Msg) (s t : Contract C)
        → s.commission_bps ≤ max_commission_bps
        → execute c msg s ≡ returned t
        → t.commission_bps ≤ max_commission_bps
    unfolding Calls.deposit Calls.withdraw_unused Calls.claim Calls.open_booking Calls.settle_as
        Calls.settle_booking Calls.cancel_booking Calls.set_commission_bps Calls.set_treasury
        Calls.pause Calls.unpause
    execute_capped (deposit amount) msg s t v h = ground arith
    execute_capped (withdraw_unused amount) msg s t v h = ground arith
    execute_capped claim msg s t v h = ground arith
    execute_capped pause msg s t v h = ground arith
    execute_capped unpause msg s t v h = ground arith
    execute_capped (open_booking id consumer supplier rate duration) msg s t v h = ground arith
    execute_capped (settle_booking id usage) msg s t v h = ground arith
    execute_capped (cancel_booking id usage) msg s t v h = ground arith
    execute_capped (set_commission_bps bps) msg s t v h = ground arith
    execute_capped (set_treasury treasury) msg s t v h = ground arith

    Step_capped :
        {s t : Contract C}
        → s.commission_bps ≤ max_commission_bps
        → Step s t
        → t.commission_bps ≤ max_commission_bps
    Step_capped {s} {t} v (called c msg o h) = execute_capped c msg s t v h
    Step_capped {s} {t} v (elsewhere l g more e) = ground arith

    pub Step-Does : {s t : Contract C} → IsValid s → Step s t → Does C T s t
    Step-Does {s} {t} v (called c msg o h) = execute-Does c msg s t v o h
    Step-Does {s} {t} v (elsewhere l g more e) = untouched (ground arith) (ground arith)

    pub Step-IsValid : {s t : Contract C} → IsValid s → Step s t → IsValid t
    Step-IsValid {s} {t} v st = record {
      sound = Effect-IsSound (Step-Does v st) v.sound;
      capped = Step_capped v.capped st;
    }

    deployed-IsValid :
        (usdc treasury bps admin settler : ℕ) (g : C.Guards) (l : C.Ledger) (s : Contract C)
        → Calls.deploy C usdc treasury bps admin settler g l ≡ returned s
        → IsValid s
    unfolding Calls.deploy
    deployed-IsValid usdc treasury bps admin settler g l s h =
        let blank : s.books ≡ no_books = ground arith in
        record {
          sound =
              subst (λ b. IsSound b (C.balance_of C.self s.ledger)) (sym blank)
                (no_books-IsSound _);
          capped = ground arith;
        }

    -- However the contract is used after its deployment, each consumer's reservation is the sum of
    -- that consumer's open bookings and is covered by the escrow, every open booking has its worst-case
    -- cost reserved, and the contract holds at least the tokens that it owes.
    pub Reach-IsValid : {s : Contract C} → Reach s → IsValid s
    Reach-IsValid (start usdc treasury bps admin settler g l h) =
        deployed-IsValid usdc treasury bps admin settler g l _ h
    Reach-IsValid (later r st) = Step-IsValid (Reach-IsValid r) st
