-- ===== src/Escrow/Lifecycle.antt =====
-- The life of a booking of contracts/src/ClawEscrow.sol across the calls of everyone.
use mathlib.Core.Path.{subst}
use claw_compute.Prelude.{ℕ, ◌≡◌, ◌≢◌, refl, ap, ◌∙◌, true, false, eqb, arith, Bool-cases, inl, inr}
use claw_compute.Escrow.Mapping.{at-put}
use claw_compute.Escrow.Result.{returned, reverted, booking_not_open}
use claw_compute.Escrow.Contract.{
  Status, settled, cancelled, settler_role, Booking, Books, Chain, IsToken, Contract, Msg,
  no_booking, is_unset, is_open, booking_of,
}
use claw_compute.Escrow.Calls.{settle_as, settle_booking, cancel_booking}
use claw_compute.Escrow.Effect.{Effect, paid_in, paid_out, earned_out, opened, closed, untouched}
use claw_compute.Escrow.System
use claw_compute.Escrow.Settle.{settle_as-eq-returned}
use claw_compute.Escrow.System.{
  called, later, Step, Reach, Reach-IsValid, IsValid, Step-IsValid, Step-Does,
}

-- `k'` is what a booking `k` may be later: anything while it does not exist, else itself, or itself
-- with a final status.
pub data IsAfter (k k' : Booking) : Type 0 where
  fresh : is_unset k.status ≡ true → IsAfter k k'
  kept : k' ≡ k → IsAfter k k'
  ended :
      (final_status : Status)
      → is_open k.status ≡ true
      → is_open final_status ≡ false
      → is_unset final_status ≡ false
      → k' ≡ record k { status = final_status }
      → IsAfter k k'

IsAfter-trans : {k k' k'' : Booking} → IsAfter k k' → IsAfter k' k'' → IsAfter k k''
IsAfter-trans (fresh u) q = fresh u
IsAfter-trans {k'' = k''} (kept e) q = subst (λ j. IsAfter j k'') e q
IsAfter-trans (ended st o f u e) (fresh u') = absurd (ground arith)
IsAfter-trans (ended st o f u e) (kept e') = ended st o f u (ground arith)
IsAfter-trans (ended st o f u e) (ended st' o' f' u' e') = absurd (ground arith)

Effect-IsAfter :
    {b b' : Books} {n n' : ℕ} (id : ℕ)
    → Effect b n b' n'
    → IsAfter (booking_of id b.bookings) (booking_of id b'.bookings)
Effect-IsAfter id (paid_in who amount e m) = kept (ground arith)
Effect-IsAfter id (paid_out who amount g e m) = kept (ground arith)
Effect-IsAfter id (earned_out who e m) = kept (ground arith)
Effect-IsAfter {b} id (opened new k u o p fits e m) = elim (Bool-cases (eqb id new)) [
  | inl h ↦ fresh (ground arith)
  | inr h ↦ kept (ground (arith, at-put no_booking id new k b.bookings))
]
Effect-IsAfter {b} id (closed old st cost commission treasury o f u fits part e m) =
    elim (Bool-cases (eqb id old)) [
      | inl h ↦ ended st (ground arith) f u (
          ground (
            arith,
            at-put no_booking id old (record (booking_of old b.bookings) { status = st })
                b.bookings,
          ))
      | inr h ↦ kept (
          ground (
            arith,
            at-put no_booking id old (record (booking_of old b.bookings) { status = st })
                b.bookings,
          ))
    ]
Effect-IsAfter id (untouched e m) = kept (ground arith)

-- A booking that is over stays what it is.
over-kept :
    {k k' : Booking} → is_open k.status ≡ false → is_unset k.status ≡ false → IsAfter k k' → k' ≡ k
over-kept o u (fresh u') = absurd (ground arith)
over-kept o u (kept e) = e
over-kept o u (ended st o' f u' e) = absurd (ground arith)

module _ (C : Chain) where
  settled-at :
      (id usage : ℕ) (msg : Msg) (s t : Contract C)
      → settle_booking C id usage msg s ≡ returned t
      → (booking_of id t.books.bookings).status ≡ settled
  unfolding settle_booking
  settled-at id usage msg s t h =
      let settles : settle_as C id usage settled msg s ≡ returned t = ground arith in
      let (_, _, _, e) = settle_as-eq-returned C id usage s settled msg settles in
      let k = booking_of id s.books.bookings in
      ap (λ c. (booking_of id c.books.bookings).status) e
      ∙ ground (arith, at-put no_booking id id (record k { status = settled }) s.books.bookings)

  over-reverts :
      (id usage : ℕ) (status : Status) (msg : Msg) (s : Contract C)
      → is_open (booking_of id s.books.bookings).status ≡ false
      → settle_as C id usage status msg s ≡ reverted (booking_not_open id)
  unfolding settle_as
  over-reverts id usage status msg s o = simp o

  pub data Trace (s : Contract C) : Contract C → Type 0 where
    here : Trace s s
    next : {t u : Contract C} → Trace s t → Step C t u → Trace s u

  module _ (T : IsToken C) where
    Trace-IsValid : {s t : Contract C} → IsValid C s → Trace s t → IsValid C t
    Trace-IsValid v here = v
    Trace-IsValid v (next p st) = Step-IsValid C T (Trace-IsValid v p) st

    Trace-IsAfter' :
        {s t : Contract C} (id : ℕ)
        → IsValid C s
        → Trace s t
        → IsAfter (booking_of id s.books.bookings) (booking_of id t.books.bookings)
    Trace-IsAfter' id v here = kept refl
    Trace-IsAfter' id v (next p st) =
        IsAfter-trans (Trace-IsAfter' id v p)
          (Effect-IsAfter id (Step-Does C T (Trace-IsValid v p) st))

    -- In every state that the contract can be in and whatever is called from there on, a booking that
    -- exists keeps its parties, its rate, its time, its lock and its commission; its status
    -- changes once at most, from open to a final one.
    pub Trace-IsAfter :
        {s t : Contract C} (id : ℕ)
        → Reach C s
        → Trace s t
        → IsAfter (booking_of id s.books.bookings) (booking_of id t.books.bookings)
    Trace-IsAfter id r p = Trace-IsAfter' id (Reach-IsValid C T r) p

    -- A booking that an account other than the contract settled is refused as not open when the
    -- settler settles or cancels it again, whatever happens between.
    pub settled_once :
        {s t u : Contract C} (id usage usage' : ℕ) (msg msg' : Msg)
        → Reach C s
        → msg.sender ≢ C.self
        → settle_booking C id usage msg s ≡ returned t
        → Trace t u
        → C.has_role settler_role msg'.sender u.guards ≡ true
        → (settle_booking C id usage' msg' u ≡ reverted (booking_not_open id))
          × (cancel_booking C id usage' msg' u ≡ reverted (booking_not_open id))
    unfolding settle_booking cancel_booking
    settled_once {s} {t} {u} id usage usage' msg msg' r outside h p role =
        let final = settled-at id usage msg s t h in
        let after =
          Trace-IsAfter id (later r (called (System.settle_booking id usage) msg outside h)) p in
        let same = over-kept (ap is_open final) (ap is_unset final) after in
        let over : is_open (booking_of id u.books.bookings).status ≡ false =
          ap (λ k. is_open k.status) same ∙ ap is_open final in
        (
          simp (role, over-reverts id usage' settled msg' u over),
          simp (role, over-reverts id usage' cancelled msg' u over),
        )
