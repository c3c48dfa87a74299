-- ===== src/Escrow/Sound.antt =====
-- The invariant of the accounts of contracts/src/ClawEscrow.sol, and the effects on it.
use mathlib.Core.Path.{subst}
use claw_compute.Prelude.{
  sym, ℕ, ◌+◌, ◌-◌, ◌≤◌, ◌≡◌, refl, [], true, false, eqb, if◌then◌else◌, Bool-cases, inl, inr,
  arith,
}
use claw_compute.Escrow.Mapping.{Mapping, put, total, at-put, total-put, at-le-total}
use claw_compute.Escrow.Contract.{
  Status, Booking, Books, no_booking, is_unset, is_open, amount_of, booking_of, sum, reserved,
}
use claw_compute.Escrow.Effect.{
  IsPriced, escrow_set, claimed_by, with_booking, charged, Effect, paid_in, paid_out, earned_out,
  opened, closed, untouched,
}

-- The reserved part of a consumer's escrow is what the open bookings reserve, it is covered, and the
-- contract holds the tokens that it owes.
pub record IsSound (b : Books) (n : ℕ) : Type 0 where
  pub counted : (c : ℕ) → amount_of c b.locked_of ≡ total (reserved c) b.bookings
  pub covered : (c : ℕ) → amount_of c b.locked_of ≤ amount_of c b.escrow
  pub solvent : sum b.escrow + sum b.claimable ≤ n
  pub priced :
      (id : ℕ)
      → is_open (booking_of id b.bookings).status ≡ true
      → IsPriced (booking_of id b.bookings)

abbrev pub no_books : Books
no_books = record { escrow = []; locked_of = []; claimable = []; bookings = [] }

pub no_books-IsSound : (n : ℕ) → IsSound no_books n
no_books-IsSound n = record {
  counted = λ c. refl;
  covered = λ c. omega arith;
  solvent = omega arith;
  priced = λ id h. absurd (ground arith);
}

module _ (b : Books) {n : ℕ} (s : IsSound b n) where
  escrow_set-IsSound :
      (who amount m : ℕ)
      → amount_of who b.locked_of ≤ amount
      → n + amount ≤ m + amount_of who b.escrow
      → IsSound (escrow_set b who amount) m
  escrow_set-IsSound who amount m keeps moved = record {
    counted = s.counted;
    covered = λ c. ground (arith, at-put 0 c who amount b.escrow, s.covered c);
    solvent = omega (arith, s.solvent, total-put (λ k. k) 0 who amount b.escrow refl);
    priced = s.priced;
  }

  claimed_by-IsSound :
      (who m : ℕ) → m + amount_of who b.claimable ≡ n → IsSound (claimed_by b who) m
  claimed_by-IsSound who m moved = record {
    counted = s.counted;
    covered = s.covered;
    solvent = omega (arith, s.solvent, total-put (λ k. k) 0 who 0 b.claimable refl);
    priced = s.priced;
  }

  with_booking-IsSound :
      (id : ℕ) (k : Booking)
      → is_unset (booking_of id b.bookings).status ≡ true
      → is_open k.status ≡ true
      → IsPriced k
      → amount_of k.consumer b.locked_of + k.locked_amount ≤ amount_of k.consumer b.escrow
      → IsSound (with_booking b id k) n
  with_booking-IsSound id k new o p fits = record {
    counted = λ c. ground (
      arith,
      s.counted c,
      at-put 0 c k.consumer (amount_of k.consumer b.locked_of + k.locked_amount) b.locked_of,
      total-put (reserved c) no_booking id k b.bookings refl,
    );
    covered = λ c. ground (
      arith,
      s.covered c,
      at-put 0 c k.consumer (amount_of k.consumer b.locked_of + k.locked_amount) b.locked_of,
    );
    solvent = s.solvent;
    priced = λ j h. ground (arith, s.priced j, at-put no_booking j id k b.bookings);
  }

  pub charged_earns :
      (id : ℕ) (k : Booking) (status : Status) (cost commission treasury : ℕ)
      → commission ≤ cost
      → sum (charged b id k status cost commission treasury).claimable ≡ sum b.claimable + cost
  charged_earns id k status cost commission treasury h =
      let earned : Mapping ℕ =
        put k.supplier (amount_of k.supplier b.claimable + (cost - commission)) b.claimable in
      ground (
        arith,
        total-put (λ m. m) 0 k.supplier (amount_of k.supplier b.claimable + (cost - commission))
            b.claimable refl,
        total-put (λ m. m) 0 treasury (amount_of treasury earned + commission) earned refl,
      )

  -- The supplier is owed the rest and the treasury the commission, and both if they are one account.
  pub charged_supplier :
      (id : ℕ) (k : Booking) (status : Status) (cost commission treasury : ℕ)
      → commission ≤ cost
      → amount_of k.supplier (charged b id k status cost commission treasury).claimable
        ≡ amount_of k.supplier b.claimable
          + (if eqb k.supplier treasury then cost else cost - commission)
  charged_supplier id k status cost commission treasury h =
      let credited = amount_of k.supplier b.claimable + (cost - commission) in
      let earned : Mapping ℕ = put k.supplier credited b.claimable in
      ground (
        arith,
        h,
        at-put 0 k.supplier k.supplier credited b.claimable,
        at-put 0 treasury k.supplier credited b.claimable,
        at-put 0 k.supplier treasury (amount_of treasury earned + commission) earned,
      )

  pub charged_treasury :
      (id : ℕ) (k : Booking) (status : Status) (cost commission treasury : ℕ)
      → commission ≤ cost
      → amount_of treasury (charged b id k status cost commission treasury).claimable
        ≡ amount_of treasury b.claimable + (if eqb k.supplier treasury then cost else commission)
  charged_treasury id k status cost commission treasury h =
      let credited = amount_of k.supplier b.claimable + (cost - commission) in
      let earned : Mapping ℕ = put k.supplier credited b.claimable in
      elim (Bool-cases (eqb k.supplier treasury)) [
        | inl e ↦ ground (
          arith,
          h,
          at-put 0 treasury k.supplier credited b.claimable,
          at-put 0 treasury treasury (amount_of treasury earned + commission) earned,
        )
        | inr e ↦ ground (
          arith,
          h,
          at-put 0 treasury k.supplier credited b.claimable,
          at-put 0 treasury treasury (amount_of treasury earned + commission) earned,
        )
      ]

  -- An open booking's reservation is part of its consumer's.
  pub lock-le :
      (id : ℕ)
      → is_open (booking_of id b.bookings).status ≡ true
      → (booking_of id b.bookings).locked_amount
        ≤ amount_of (booking_of id b.bookings).consumer b.locked_of
  lock-le id o = ground (
    arith,
    s.counted (booking_of id b.bookings).consumer,
    at-le-total (reserved (booking_of id b.bookings).consumer) no_booking id b.bookings refl,
  )

  charged-IsSound :
      (id : ℕ) (status : Status) (cost commission treasury : ℕ)
      → is_open (booking_of id b.bookings).status ≡ true
      → is_open status ≡ false
      → cost ≤ (booking_of id b.bookings).locked_amount
      → commission ≤ cost
      → IsSound (charged b id (booking_of id b.bookings) status cost commission treasury) n
  charged-IsSound id status cost commission treasury o f fits part =
      let k = booking_of id b.bookings in
      let lock = lock-le id o in
      record {
        counted = λ c. ground (
          arith,
          s.counted c,
          at-put 0 c k.consumer (amount_of k.consumer b.locked_of - k.locked_amount) b.locked_of,
          total-put (reserved c) no_booking id (record k { status = status }) b.bookings refl,
        );
        covered = λ c. ground (
          arith,
          s.covered c,
          at-put 0 c k.consumer (amount_of k.consumer b.locked_of - k.locked_amount) b.locked_of,
          at-put 0 c k.consumer (amount_of k.consumer b.escrow - cost) b.escrow,
        );
        solvent = omega (
          arith,
          s.solvent,
          s.covered k.consumer,
          charged_earns id k status cost commission treasury part,
          total-put (λ m. m) 0 k.consumer (amount_of k.consumer b.escrow - cost) b.escrow refl,
        );
        priced = λ j h.
            ground
              (arith, s.priced j, at-put no_booking j id (record k { status = status }) b.bookings);
      }

  grown-IsSound : (m : ℕ) → n ≤ m → IsSound b m
  grown-IsSound m h = record {
    counted = s.counted;
    covered = s.covered;
    solvent = omega (arith, s.solvent);
    priced = s.priced;
  }

module _ {b : Books} {n : ℕ} {b' : Books} {n' : ℕ} where
  -- Whatever the contract does to its accounts keeps the invariant.
  pub Effect-IsSound : Effect b n b' n' → IsSound b n → IsSound b' n'
  Effect-IsSound (paid_in who amount e m) s =
      subst (λ x. IsSound x n') (sym e)
        (escrow_set-IsSound b s who (amount_of who b.escrow + amount) n'
          (omega (arith, s.covered who)) (omega arith))
  Effect-IsSound (paid_out who amount g e m) s =
      subst (λ x. IsSound x n') (sym e)
        (escrow_set-IsSound b s who (amount_of who b.escrow - amount) n' (omega arith)
          (omega arith))
  Effect-IsSound (earned_out who e m) s =
      subst (λ x. IsSound x n') (sym e) (claimed_by-IsSound b s who n' m)
  Effect-IsSound (opened id k new o p fits e m) s =
      subst (λ x. IsSound x n') (sym e)
        (grown-IsSound _ (with_booking-IsSound b s id k new o p fits) n' (omega arith))
  Effect-IsSound (closed id status cost commission treasury o f u fits part e m) s =
      subst (λ x. IsSound x n') (sym e)
        (grown-IsSound _ (charged-IsSound b s id status cost commission treasury o f fits part) n'
          (omega arith))
  Effect-IsSound (untouched e m) s = subst (λ x. IsSound x n') (sym e) (grown-IsSound b s n' m)
