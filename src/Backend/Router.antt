-- ===== src/Backend/Router.antt =====
-- backend/src/claw_api/api/v1/bookings.py: the transitions of a booking.
use claw_compute.Prelude.{
  ℕ, Bool, true, false, not, ◌&&◌, Option, none, some, [], ◌∷◌, ◌++◌, find, String, ◌==◌,
  if◌then◌else◌,
}
use claw_compute.Escrow.Contract.{Chain}
use claw_compute.Backend.Models.{
  BookingStatus, active, completed, cancelled, same_status, valid_transitions, is_among, Booking,
  Offering, User, Supplier, ChainError, Db, booking_at, saved,
}
use claw_compute.Backend.Client.{Node, Fate}
use claw_compute.Backend.Service.{
  Settings, booking_activated, booking_cancelled, World, settle_on_activate, settle_on_close,
}

-- A value, the status of an `HTTPException`, or the exception of a row that is missing.
pub data Answer (A : Type 0) : Type 0 where
  given : A → Answer A
  http : (status : ℕ) → Answer A
  no_result_found : Answer A

infixl 5 ◌>>=◌ ◌>>◌
abbrev pub ◌>>=◌ : {A B : Type 0} → Answer A → (A → Answer B) → Answer B
given a >>= f = f a
http n >>= f = http n
no_result_found >>= f = no_result_found

abbrev pub ◌>>◌ : {A B : Type 0} → Answer A → Answer B → Answer B
m >> k = m >>= λ _. k

abbrev pub raise_if : Bool → ℕ → Answer (Unit {0})
raise_if wrong n = if wrong then http n else given tt

abbrev pub scalar_one : {A : Type 0} → Option A → Answer A
scalar_one none = no_result_found
scalar_one (some a) = given a

abbrev pub or_404 : {A : Type 0} → Option A → Answer A
or_404 none = http 404
or_404 (some a) = given a

-- `_load_party`
abbrev pub load_party : Db → String → User → Answer Booking
load_party db booking_id user = do
  booking ← or_404 (booking_at booking_id db)
  if booking.consumer_user_id == user.id then given booking else (do
    supplier ← or_404 (find (λ s. s.user_id == user.id) db.suppliers)
    offering ← scalar_one (find (λ o. o.id == booking.offering_id) db.offerings)
    if offering.supplier_id == supplier.id then given booking else http 404)

-- The rows that a transition works on.
pub record Parties : Type 0 where
  pub booking : Booking
  pub offering : Offering
  pub consumer : User
  pub supplier : Supplier

abbrev pub parties_of : Db → String → BookingStatus → User → Answer Parties
parties_of db booking_id to user = do
  booking ← load_party db booking_id user
  raise_if (not (is_among to (valid_transitions booking.status))) 400
  offering ← scalar_one (find (λ o. o.id == booking.offering_id) db.offerings)
  consumer ← scalar_one (find (λ u. u.id == booking.consumer_user_id) db.users)
  supplier ← scalar_one (find (λ s. s.id == offering.supplier_id) db.suppliers)
  given
      (record { booking = booking; offering = offering; consumer = consumer; supplier = supplier })

abbrev pub is_final : BookingStatus → Bool
is_final completed = true
is_final cancelled = true
is_final _ = false

abbrev pub stamped : BookingStatus → ℕ → Booking → Booking
stamped to now b = record b {
  status = to;
  started_at = if same_status to active then some now else b.started_at;
  ended_at = if is_final to then some now else b.ended_at;
}

module _ (C : Chain) (node : Node) (settings : Settings) where
  abbrev pub committed : Booking → World C → World C
  committed b w = record w { db = record w.db { bookings = saved b w.db.bookings } }

  abbrev pushed : BookingStatus → Booking → Booking → World C → World C
  pushed to old b w =
      if same_status to active
      then record w {
        published = w.published ++ ((b.worker_id, booking_activated b.id b.offering_id) ∷ []);
      }
      else if same_status old.status active && is_final to
      then record w { published = w.published ++ ((b.worker_id, booking_cancelled b.id) ∷ []) }
      else w

  -- The worker's row gives the headers of the response and the key to seal the message with.
  abbrev pub notify : BookingStatus → Booking → Booking → World C → Answer Booking × World C
  notify to old b w = elim (find (λ k. k.id == b.worker_id) w.db.workers) [
    | none ↦ (no_result_found, w)
    | some worker ↦ (given b, pushed to old b w)
  ]

  abbrev pub closed_out : BookingStatus → Parties → ℕ → Fate → World C → World C
  closed_out to p now fate w =
      let b = stamped to now p.booking in
      if same_status p.booking.status active && is_final to
      then settle_on_close C node settings b p.offering p.consumer p.supplier
          (same_status to cancelled) fate (committed b w)
      else committed b w

  abbrev pub locked_first : BookingStatus → Parties → Fate → World C → Option ChainError × World C
  locked_first to p fate w =
      if same_status to active
      then settle_on_activate C node settings p.booking p.offering p.consumer p.supplier fate w
      else (none, w)

  abbrev pub go_on :
      BookingStatus → Parties → ℕ → Fate → Option ChainError × World C → Answer Booking × World C
  go_on to p now fate (some e, w) = (http 402, w)
  go_on to p now fate (none, w) =
      notify to p.booking (stamped to now p.booking) (closed_out to p now fate w)

  abbrev pub transit :
      BookingStatus → Answer Parties → ℕ → Fate → World C → Answer Booking × World C
  transit to (given p) now fate w = go_on to p now fate (locked_first to p fate w)
  transit to (http n) now fate w = (http n, w)
  transit to no_result_found now fate w = (no_result_found, w)

  -- `transition_booking`
  unfoldable pub transition_booking :
      String → BookingStatus → User → ℕ → Fate → World C → Answer Booking × World C
  transition_booking booking_id to user now fate w =
      transit to (parties_of w.db booking_id to user) now fate w
