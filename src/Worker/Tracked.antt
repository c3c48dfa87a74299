-- ===== src/Worker/Tracked.antt =====
-- What the events of a booking do to its sandbox (worker/src/booking/mod.rs, worker/src/state.rs).
use mathlib.Core.Path.{subst}
use claw_compute.Prelude.{
  ℕ, ◌≡◌, refl, ◌∙◌, true, Option, none, some, List, [], ◌∷◌, find, String, ◌==◌, if◌then◌else◌,
  arith, All, Bool-cases, inl, inr, eq_iff, eq_refl,
}
use claw_compute.Worker.Events.{
  WorkerEvent, ping, booking_activated, booking_cancelled, message_user, sealed,
}
use claw_compute.Worker.Booking.{
  SandboxHandle, BookingRow, start, stop, Outcomes, BookingHandler, port_of, without,
  upsert_booking, list_active_bookings, called, written, loaded, with_port, sandboxed, forget_port,
  cancelled_row, stopped_row, finished, relayed, dispatch,
}

abbrev pub status_of : String → List BookingRow → Option String
status_of id [] = none
status_of id (r ∷ rows) = if r.id == id then some r.status else status_of id rows

pub status_of-upsert_booking :
    (id : String) (row : BookingRow) (rows : List BookingRow)
    → status_of id (upsert_booking row rows)
      ≡ (if row.id == id then some row.status else status_of id rows)
status_of-upsert_booking id row [] = refl
status_of-upsert_booking id row (r ∷ rows) = ground (
  arith,
  status_of-upsert_booking id row rows,
  eq_iff r.id row.id,
  eq_iff row.id id,
  eq_iff r.id id,
)

pub port_of-remove :
    (id : String) (ports : List (String × ℕ)) → port_of id (without id ports) ≡ none
port_of-remove id [] = refl
port_of-remove id ((k, port) ∷ ports) = ground (arith, port_of-remove id ports)

-- The port of a sandbox stands for a booking whose row is active.
abbrev pub IsTracked : BookingHandler → Type 0
IsTracked h = All (λ (p : String × ℕ). status_of p.0 h.rows ≡ some "active") h.sandbox_ports

tracked-upsert :
    (row : BookingRow) (rows : List BookingRow) (ports : List (String × ℕ))
    → row.status ≡ "active"
    → All (λ (p : String × ℕ). status_of p.0 rows ≡ some "active") ports
    → All (λ (p : String × ℕ). status_of p.0 (upsert_booking row rows) ≡ some "active") ports
tracked-upsert row rows [] e h = tt
tracked-upsert row rows ((k, port) ∷ ports) e (h, hs) =
    (ground (arith, status_of-upsert_booking k row rows), tracked-upsert row rows ports e hs)

tracked-remove :
    (id : String) (rows : List BookingRow) (ports : List (String × ℕ))
    → All (λ (p : String × ℕ). status_of p.0 rows ≡ some "active") ports
    → All (λ (p : String × ℕ). status_of p.0 rows ≡ some "active") (without id ports)
tracked-remove id rows [] h = tt
tracked-remove id rows ((k, port) ∷ ports) (h, hs) = elim (Bool-cases (k == id)) [
  | inl same ↦ rw same (tracked-remove id rows ports hs)
  | inr other ↦ rw other (h, tracked-remove id rows ports hs)
]

-- Without the ports of its booking, a row may get any status.
tracked-change :
    (row : BookingRow) (rows : List BookingRow) (ports : List (String × ℕ))
    → All (λ (p : String × ℕ). status_of p.0 rows ≡ some "active") ports
    → All
        (λ (p : String × ℕ). status_of p.0 (upsert_booking row rows) ≡ some "active")
        (without row.id ports)
tracked-change row rows [] h = tt
tracked-change row rows ((k, port) ∷ ports) (h, hs) = elim (Bool-cases (k == row.id)) [
  | inl same ↦ rw same (tracked-change row rows ports hs)
  | inr other ↦ rw other (
    ground (arith, status_of-upsert_booking k row rows, eq_iff k row.id, eq_iff row.id k),
    tracked-change row rows ports hs,
  )
]

ported-IsTracked :
    (row : BookingRow) (port : Option ℕ) (h : BookingHandler)
    → row.status ≡ "active"
    → IsTracked h
    → IsTracked (record (with_port row.id port h) {
      rows = upsert_booking row (with_port row.id port h).rows;
    })
ported-IsTracked row none h e t = tracked-upsert row h.rows h.sandbox_ports e t
ported-IsTracked row (some port) h e t = (
  status_of-upsert_booking row.id row h.rows ∙ ground (arith, eq_refl row.id),
  tracked-upsert row h.rows (without row.id h.sandbox_ports) e
      (tracked-remove row.id h.rows h.sandbox_ports t),
)

pub find-id :
    (id : String) (rows : List BookingRow) (row : BookingRow)
    → find (λ r. r.id == id) rows ≡ some row
    → row.id ≡ id
find-id id [] row h = ground arith
find-id id (r ∷ rows) row h = ground (arith, find-id id rows row, eq_iff r.id id)

module _ (model_id_of : String → Option String) where
  written-IsTracked :
      (o : Outcomes) (row : BookingRow) (h : BookingHandler)
      → o.upserted ≡ true
      → row.status ≡ "active"
      → IsTracked h
      → IsTracked (written o row h).1
  written-IsTracked o row h saved e t = rw saved (tracked-upsert row h.rows h.sandbox_ports e t)

  -- A port that is inserted before the row is written.
  activated-IsTracked :
      (booking_id offering_id : String) (now : ℕ) (o : Outcomes) (handle : Option SandboxHandle)
      (h : BookingHandler)
      → o.upserted ≡ true
      → IsTracked h
      → IsTracked (sandboxed booking_id offering_id now o handle h).1
  activated-IsTracked booking_id offering_id now o none h saved t = t
  activated-IsTracked booking_id offering_id now o (some handle) h saved t =
      let row : BookingRow = record {
        id = booking_id;
        offering_id = offering_id;
        status = "active";
        started_at = some now;
        sandbox_id = some handle.sandbox_id;
      } in
      rw saved (ported-IsTracked row handle.forwarded_port h refl t)

  cancelled-IsTracked :
      (o : Outcomes) (booking_id : String) (row : BookingRow) (h : BookingHandler)
      → o.upserted ≡ true
      → row.id ≡ booking_id
      → IsTracked h
      → IsTracked (forget_port booking_id (cancelled_row o row h)).1
  cancelled-IsTracked o booking_id row h saved e t = rw saved (
      subst
        (λ id.
          All
            (λ (p : String × ℕ).
              status_of p.0 (upsert_booking (record row { status = "cancelled" }) h.rows)
              ≡ some "active")
            (without id h.sandbox_ports))
        e (tracked-change (record row { status = "cancelled" }) h.rows h.sandbox_ports t))

  stopped_row-IsTracked :
      (o : Outcomes) (booking_id : String) (row : BookingRow) (sandbox_id : Option String)
      (h : BookingHandler)
      → o.upserted ≡ true
      → row.id ≡ booking_id
      → IsTracked h
      → IsTracked (forget_port booking_id (stopped_row o row sandbox_id h)).1
  stopped_row-IsTracked o booking_id row none h saved e t =
      cancelled-IsTracked o booking_id row h saved e t
  stopped_row-IsTracked o booking_id row (some sb) h saved e t = elim (Bool-cases o.stopped) [
    | inl stopped ↦ rw stopped (cancelled-IsTracked o booking_id row (called (stop sb) h) saved e t)
    | inr failed ↦ rw failed t
  ]

  found-IsTracked :
      (o : Outcomes) (booking_id : String) (found : Option BookingRow) (h : BookingHandler)
      → find (λ r. r.id == booking_id) (list_active_bookings h.rows) ≡ found
      → o.upserted ≡ true
      → IsTracked h
      → IsTracked (forget_port booking_id (finished o booking_id found h)).1
  found-IsTracked o booking_id none h e saved t = tracked-remove booking_id h.rows h.sandbox_ports t
  found-IsTracked o booking_id (some row) h e saved t =
      stopped_row-IsTracked o booking_id row row.sandbox_id h saved
        (find-id booking_id (list_active_bookings h.rows) row e) t

  loaded-IsTracked :
      (config : String) (h : BookingHandler) → IsTracked h → IsTracked (loaded model_id_of config h)
  loaded-IsTracked config h t = elim (Bool-cases h.model_host) [
    | inl wired ↦ rw wired t
    | inr bare ↦ rw bare t
  ]

  relayed-IsTracked :
      (o : Outcomes) (booking_id content : String) (port : Option ℕ) (api : Option String)
      (h : BookingHandler)
      → IsTracked h
      → IsTracked (relayed o booking_id content port api h)
  relayed-IsTracked o booking_id content none api h t = t
  relayed-IsTracked o booking_id content (some port) none h t = t
  relayed-IsTracked o booking_id content (some port) (some token) h t = t

  -- Whatever the events and whatever fails of them, but the writing of a row: a sandbox that messages
  -- are relayed to is that of a booking whose row is active.
  pub dispatch-IsTracked :
      (now : ℕ) (o : Outcomes) (e : WorkerEvent) (h : BookingHandler)
      → o.upserted ≡ true
      → IsTracked h
      → IsTracked (dispatch model_id_of now o e h).1
  unfolding dispatch
  dispatch-IsTracked now o ping h saved t = t
  dispatch-IsTracked now o (booking_activated id offering config) h saved t =
      activated-IsTracked id offering now o o.started
        (called (start id offering "claw/agent-base:0.1" config) (loaded model_id_of config h))
        saved (loaded-IsTracked config h t)
  dispatch-IsTracked now o (booking_cancelled id) h saved t = elim (Bool-cases o.listed) [
    | inl listed ↦
        rw listed (
          found-IsTracked o id (find (λ r. r.id == id) (list_active_bookings h.rows)) h refl saved
            t)
    | inr failed ↦ rw failed t
  ]
  dispatch-IsTracked now o (message_user id content) h saved t =
      relayed-IsTracked o id content (port_of id h.sandbox_ports) h.api h t
  dispatch-IsTracked now o (sealed env) h saved t = t
