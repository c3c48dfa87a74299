-- ===== src/Tests/Token.antt =====
-- A token with the laws that the theorems on the escrow contract ask of it.
use claw_compute.Prelude.{
  ℕ, ◌+◌, ◌-◌, ◌≤◌, ◌≡◌, refl, Bool, true, false, eqb, leb, if◌then◌else◌, Option, none, some, [],
  ◌≢◌, arith, sym, ap, ◌∙◌,
}
use claw_compute.Escrow.Result.{max_uint}
use claw_compute.Escrow.Contract.{Chain, IsToken, default_admin_role, settler_role, amount_of, sum}
use claw_compute.Escrow.Mapping.{Mapping, put, at-put, total-put, at-le-total}
use claw_compute.Escrow.Exit.{IsPaying}

-- The ledger holds the balances of all accounts but the contract's, account 99, which has what they
-- leave of the supply. A ledger of more than the supply is read as empty.
abbrev supply : ℕ
supply = 8000000

abbrev balances : Mapping ℕ → Mapping ℕ
balances l = if leb (sum l) supply then l else []

abbrev pub balance : ℕ → Mapping ℕ → ℕ
balance account l =
    if eqb account 99 then supply - sum (balances l) else amount_of account (balances l)

abbrev pay_out : ℕ → ℕ → Mapping ℕ → Option (Mapping ℕ)
pay_out to amount l =
    if leb amount (balance 99 l)
    then some (put to (amount_of to (balances l) + amount) (balances l))
    else none

abbrev pay_in : ℕ → ℕ → Mapping ℕ → Option (Mapping ℕ)
pay_in from amount l =
    if leb amount (amount_of from (balances l))
    then some (put from (amount_of from (balances l) - amount) (balances l))
    else none

-- Only the transfers with the contract are of interest.
abbrev move : ℕ → ℕ → ℕ → Mapping ℕ → Option (Mapping ℕ)
move from to amount l =
    if eqb from to
    then some l
    else (if eqb to 99
        then pay_in from amount l
        else (if eqb from 99 then pay_out to amount l else none))

-- The guards are the switch; account 1 is the admin and account 2 the settler.
abbrev pub small_chain : Chain
small_chain = record {
  self = 99;
  Ledger = Mapping ℕ;
  balance_of = balance;
  transfer_from = move;
  Guards = Bool;
  has_role =
      λ r account g. elim r [ default_admin_role ↦ eqb account 1 | settler_role ↦ eqb account 2 ];
  grant_role = λ r account g. g;
  is_paused = λ g. g;
  pause = λ g. if g then none else some true;
  unpause = λ g. if g then some false else none;
}

-- No ledger holds more than the supply, and an account has no more than all have.
within_supply : (l : Mapping ℕ) → sum (balances l) ≤ supply
within_supply l = ground arith

has_part : (account : ℕ) (l : Mapping ℕ) → amount_of account (balances l) ≤ sum (balances l)
has_part account l = at-le-total (λ n. n) 0 account (balances l) refl

wrote :
    (account amount : ℕ) (m : Mapping ℕ)
    → sum (put account amount m) + amount_of account m ≡ sum m + amount
wrote account amount m = total-put (λ n. n) 0 account amount m refl

-- A balance that changes by what the contract has or gets leaves a ledger within the supply.
rewritten :
    (account amount : ℕ) (l : Mapping ℕ)
    → amount ≤ amount_of account (balances l) + balance 99 l
    → balances (put account amount (balances l)) ≡ put account amount (balances l)
rewritten account amount l h =
    let fits : sum (put account amount (balances l)) ≤ supply =
      omega (arith, h, wrote account amount (balances l), within_supply l) in
    ground (arith, fits)

paid_out_lem :
    (to amount : ℕ) (l : Mapping ℕ) {l' : Mapping ℕ}
    → to ≢ 99
    → move 99 to amount l ≡ some l'
    → (balance 99 l' + amount ≡ balance 99 l) × (balance to l' ≡ balance to l + amount)
paid_out_lem to amount l {l'} other e =
    let m = put to (amount_of to (balances l) + amount) (balances l) in
    let (covered, paid) : (amount ≤ balance 99 l) × (m ≡ l') = ground (arith, other, e) in
    let kept : balances l' ≡ m =
      ap balances (sym paid)
      ∙ rewritten to (amount_of to (balances l) + amount) l (omega (arith, covered)) in
    (
      omega (
        arith,
        covered,
        ap sum kept,
        within_supply l,
        wrote to (amount_of to (balances l) + amount) (balances l),
      ),
      ground (
        arith,
        other,
        ap (amount_of to) kept,
        at-put 0 to to (amount_of to (balances l) + amount) (balances l),
      ),
    )

paid_in_lem :
    (from amount : ℕ) (l : Mapping ℕ) {l' : Mapping ℕ}
    → from ≢ 99
    → move from 99 amount l ≡ some l'
    → balance 99 l' ≡ balance 99 l + amount
paid_in_lem from amount l {l'} other e =
    let rest = amount_of from (balances l) - amount in
    let (covered, paid) : (amount ≤ amount_of from (balances l))
        × (put from rest (balances l) ≡ l') =
      ground (arith, other, e) in
    let kept : balances l' ≡ put from rest (balances l) =
      ap balances (sym paid) ∙ rewritten from rest l (omega (arith, covered)) in
    omega
      (arith, covered, ap sum kept, within_supply l, has_part from l, wrote from rest (balances l))

pub small_chain-IsToken : IsToken small_chain
unfolding max_uint
small_chain-IsToken = record {
  received = λ from amount l o e. paid_in_lem from amount l o e;
  sent = λ to amount l o e. (paid_out_lem to amount l o e).0;
  bounded = λ account l. ground (arith, within_supply l, has_part account l);
}

pub small_chain-IsPaying : IsPaying small_chain
small_chain-IsPaying = record {
  pays = λ to amount l real o covered.
      (put to (amount_of to (balances l) + amount) (balances l), ground arith);
  credits = λ to amount l o e. (paid_out_lem to amount l o e).1;
}
