-- ===== src/Escrow/Exit.antt =====
-- The ways out of contracts/src/ClawEscrow.sol: withdrawUnused and claim.
use claw_compute.Prelude.{ℕ, ◌+◌, ◌-◌, ◌≤◌, ◌<◌, ◌≡◌, ◌≢◌, refl, eqb, ltb, false, some, arith}
use claw_compute.Escrow.Mapping.{at-le-total, at-put}
use claw_compute.Escrow.Result.{returned, sub_returns}
use claw_compute.Escrow.Contract.{withdrawn, claimed, Chain, IsToken, Contract, Msg, amount_of}
use claw_compute.Escrow.Calls.{emit, withdraw_unused, claim, free_escrow_of}
use claw_compute.Escrow.Effect.{escrow_set, claimed_by}
use claw_compute.Escrow.Refines.{held}
use claw_compute.Escrow.System.{Reach, Reach-IsValid}

-- What the documentation of ERC-20 says of a transfer that the contract makes: it succeeds when it is
-- covered, and the account it names has the amount more. No balance overflows, since the total
-- supply is a `uint256`.
pub record IsPaying (C : Chain) : Type 0 where
  pub pays :
      (to amount : ℕ) (l : C.Ledger)
      → to ≢ 0
      → to ≢ C.self
      → amount ≤ C.balance_of C.self l
      → (l' : C.Ledger) × (C.transfer_from C.self to amount l ≡ some l')
  pub credits :
      (to amount : ℕ) (l : C.Ledger) {l' : C.Ledger}
      → to ≢ C.self
      → C.transfer_from C.self to amount l ≡ some l'
      → C.balance_of to l' ≡ C.balance_of to l + amount

module _ (C : Chain) (msg : Msg) (s : Contract C) (l : C.Ledger) where
  abbrev withdrawn_state : ℕ → Contract C
  withdrawn_state amount = emit C (withdrawn msg.sender amount) (record s {
    books = escrow_set s.books msg.sender (amount_of msg.sender s.books.escrow - amount);
    ledger = l;
  })

  abbrev claimed_state : Contract C
  claimed_state =
      emit C (claimed msg.sender (amount_of msg.sender s.books.claimable))
        (record s { books = claimed_by s.books msg.sender; ledger = l })

  withdraw_unused_computes :
      (amount : ℕ)
      → 0 < amount
      → amount_of msg.sender s.books.locked_of + amount ≤ amount_of msg.sender s.books.escrow
      → C.transfer_from C.self msg.sender amount s.ledger ≡ some l
      → withdraw_unused C amount msg s ≡ returned (withdrawn_state amount)
  unfolding withdraw_unused free_escrow_of
  withdraw_unused_computes amount some_amount free e =
      let mine = amount_of msg.sender s.books.escrow in
      let locked = amount_of msg.sender s.books.locked_of in
      let positive : eqb amount 0 ≡ false = ground (arith, some_amount) in
      let unlocked : ltb (mine - locked) amount ≡ false = ground (arith, free) in
      simp (
        positive,
        sub_returns mine locked (omega (arith, free)),
        unlocked,
        sub_returns mine amount (omega (arith, free)),
        e,
      )

  claim_computes :
      0 < amount_of msg.sender s.books.claimable
      → C.transfer_from C.self msg.sender (amount_of msg.sender s.books.claimable) s.ledger ≡ some l
      → claim C msg s ≡ returned claimed_state
  unfolding claim
  claim_computes some_amount e =
      let positive : eqb (amount_of msg.sender s.books.claimable) 0 ≡ false =
        ground (arith, some_amount) in
      simp (positive, e)

module _ (C : Chain) (T : IsToken C) (P : IsPaying C) (msg : Msg) {s : Contract C} where
  -- If the token makes every transfer that is covered, and credits it to the account that it
  -- names: however the contract was used before, and paused or not, a consumer (neither the zero
  -- account nor the contract) can withdraw whatever positive part of the escrow no open booking
  -- reserves. The escrow and the contract's token balance then are that much less, and the
  -- caller's own token balance is that much more.
  pub withdraw_unused_returns :
      (amount : ℕ)
      → Reach C s
      → msg.sender ≢ 0
      → msg.sender ≢ C.self
      → 0 < amount
      → amount_of msg.sender s.books.locked_of + amount ≤ amount_of msg.sender s.books.escrow
      → (t : Contract C) × (withdraw_unused C amount msg s ≡ returned t)
        × (amount_of msg.sender t.books.escrow + amount ≡ amount_of msg.sender s.books.escrow)
        × (held C T t + amount ≡ held C T s)
        × (C.balance_of msg.sender t.ledger ≡ C.balance_of msg.sender s.ledger + amount)
  withdraw_unused_returns amount r real outside some_amount free =
      let covers : amount ≤ held C T s = omega (
        arith,
        free,
        (Reach-IsValid C T r).sound.solvent,
        at-le-total (λ n. n) 0 msg.sender s.books.escrow refl,
      ) in
      let (l, e) = P.pays msg.sender amount s.ledger real outside covers in
      let w = msg.sender in
      (
        withdrawn_state C msg s l amount,
        withdraw_unused_computes C msg s l amount some_amount free e,
        ground (arith, free, at-put 0 w w (amount_of w s.books.escrow - amount) s.books.escrow),
        T.sent w amount s.ledger outside e,
        P.credits w amount s.ledger outside e,
      )

  -- If the token makes every transfer that is covered, and credits it to the account that it
  -- names: however the contract was used before, and paused or not, who is owed something by the
  -- contract (neither the zero account nor the contract) can claim it, and is then owed nothing.
  -- The contract's token balance then is that much less, and the caller's own token balance is
  -- that much more.
  pub claim_returns :
      Reach C s
      → msg.sender ≢ 0
      → msg.sender ≢ C.self
      → 0 < amount_of msg.sender s.books.claimable
      → (t : Contract C) × (claim C msg s ≡ returned t)
        × (amount_of msg.sender t.books.claimable ≡ 0)
        × (held C T t + amount_of msg.sender s.books.claimable ≡ held C T s)
        × (C.balance_of msg.sender t.ledger
            ≡ C.balance_of msg.sender s.ledger + amount_of msg.sender s.books.claimable)
  claim_returns r real outside some_amount =
      let w = msg.sender in
      let amount = amount_of w s.books.claimable in
      let covers : amount ≤ held C T s = omega (
        arith,
        (Reach-IsValid C T r).sound.solvent,
        at-le-total (λ n. n) 0 w s.books.claimable refl,
      ) in
      let (l, e) = P.pays w amount s.ledger real outside covers in
      (
        claimed_state C msg s l,
        claim_computes C msg s l some_amount e,
        ground (arith, at-put 0 w w 0 s.books.claimable),
        T.sent w amount s.ledger outside e,
        P.credits w amount s.ledger outside e,
      )
