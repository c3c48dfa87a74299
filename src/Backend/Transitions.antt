-- ===== src/Backend/Transitions.antt =====
-- How the rows of the bookings move (backend/src/claw_api/api/v1/bookings.py).
use claw_compute.Prelude.{
  ℕ, ◌≡◌, Bool, true, Option, some, List, [], ◌∷◌, find, String, ◌==◌, arith, eq_iff, eq_refl,
}
use claw_compute.Escrow.Contract.{Chain}
use claw_compute.Backend.Models.{
  BookingStatus, cancelled, same_status, valid_transitions, is_among, Booking, Offering, User,
  Supplier, Db, booking_at, saved,
}
use claw_compute.Backend.Client.{Node, Fate}
use claw_compute.Backend.Service.{Settings, World, settle_on_close}
use claw_compute.Backend.Router.{
  given, Parties, load_party, parties_of, stamped, committed, closed_out, notify,
}

find-id :
    (id : String) (r : Booking) (rows : List Booking)
    → find (λ x. x.id == id) rows ≡ some r
    → (r.id == id) ≡ true
find-id id r [] h = ground arith
find-id id r (x ∷ rows) h = ground (arith, find-id id r rows)

pub find-saved_at :
    (id : String) (b k : Booking) (rows : List Booking)
    → find (λ x. x.id == id) rows ≡ some k
    → b.id ≡ k.id
    → find (λ x. x.id == id) (saved b rows) ≡ some b
find-saved_at id b k [] h e = ground arith
find-saved_at id b k (x ∷ rows) h e =
    grind (arith, find-saved_at id b k rows, find-id id k (x ∷ rows) h, eq_iff, eq_refl)

load_party-booking :
    (db : Db) (id : String) (user : User) {b : Booking}
    → load_party db id user ≡ given b
    → booking_at id db ≡ some b
load_party-booking db id user h = ground arith

pub parties_of-booking :
    (db : Db) (id : String) (to : BookingStatus) (user : User) {p : Parties}
    → parties_of db id to user ≡ given p
    → (booking_at id db ≡ some p.booking)
      × (is_among to (valid_transitions p.booking.status) ≡ true)
parties_of-booking db id to user h = ground arith

-- How a row may change: not at all, or along the table of transitions.
pub data Moved (booking_id : String) (to : BookingStatus) (now : ℕ) (id : String)
    (old new : Option Booking) : Type 0 where
  kept : new ≡ old → Moved booking_id to now id old new
  moved :
      (b : Booking)
      → id ≡ booking_id
      → old ≡ some b
      → is_among to (valid_transitions b.status) ≡ true
      → new ≡ some (stamped to now b)
      → Moved booking_id to now id old new

module _ (C : Chain) (node : Node) (settings : Settings) where
  settle_on_close-bookings :
      (b : Booking) (o : Offering) (c : User) (s : Supplier) (cancelled : Bool) (fate : Fate)
      (w : World C)
      → (settle_on_close C node settings b o c s cancelled fate w).db.bookings ≡ w.db.bookings
  settle_on_close-bookings b o c s whether fate w = ground arith

  pub closed_out-bookings :
      (to : BookingStatus) (p : Parties) (now : ℕ) (fate : Fate) (w : World C)
      → (closed_out C node settings to p now fate w).db.bookings
        ≡ saved (stamped to now p.booking) w.db.bookings
  closed_out-bookings to p now fate w = ground (
    arith,
    settle_on_close-bookings (stamped to now p.booking) p.offering p.consumer p.supplier
        (same_status to cancelled) fate (committed C node settings (stamped to now p.booking) w),
  )

  pub notify-bookings :
      (to : BookingStatus) (old b : Booking) (w : World C)
      → (notify C node settings to old b w).1.db.bookings ≡ w.db.bookings
  notify-bookings to old b w = ground arith
