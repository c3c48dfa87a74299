-- ===== src/Worker/Cancel.antt =====
-- The life of a booking's sandbox (worker/src/booking/mod.rs).
use mathlib.Core.Path.{subst}
use mathlib.Core.List.{append_assoc}
use claw_compute.Prelude.{
  ℕ, ◌≡◌, refl, sym, ap, ◌∙◌, Bool, true, false, Option, none, some, [], ◌∷◌, ◌++◌, find, String,
  ◌==◌, if◌then◌else◌, arith, Bool-cases, inl, inr, eq_iff, eq_refl,
}
use claw_compute.Worker.Events.{booking_activated, booking_cancelled, message_user}
use claw_compute.Worker.Booking.{
  SandboxHandle, BookingRow, start, stop, sandbox_chat, post_assistant_message, Outcomes,
  BookingHandler, port_of, list_active_bookings, called, written, loaded, sandboxed, forget_port,
  stopped_row, finished, cancel, answer_of, relayed, dispatch,
}
use claw_compute.Worker.Tracked.{status_of, status_of-upsert_booking, port_of-remove, find-id}

module _ (model_id_of : String → Option String) where
  listed_cancel :
      (booking_id : String) (o : Outcomes) (h : BookingHandler)
      → o.listed ≡ true
      → cancel booking_id o h
        ≡ forget_port booking_id
            (finished o booking_id (find (λ r. r.id == booking_id) (list_active_bookings h.rows)) h)
  listed_cancel booking_id o h listed = rw listed

  abbrev Stopped :
      Outcomes → (booking_id sandbox_id : String) → BookingHandler → Bool × BookingHandler → Type 0
  Stopped o booking_id sandbox_id h r =
      (r.1.calls ≡ h.calls ++ (stop sandbox_id ∷ []))
      × (r.0 ≡ o.stopped)
      × (status_of booking_id r.1.rows
          ≡ (if o.stopped then some "cancelled" else status_of booking_id h.rows))
      × (port_of booking_id r.1.sandbox_ports
          ≡ (if o.stopped then none else port_of booking_id h.sandbox_ports))

  stopped_row-Stopped :
      (o : Outcomes) (booking_id sandbox_id : String) (h : BookingHandler) (row : BookingRow)
      (sandbox : Option String)
      → o.upserted ≡ true
      → row.id ≡ booking_id
      → sandbox ≡ some sandbox_id
      → Stopped o booking_id sandbox_id h (forget_port booking_id (stopped_row o row sandbox h))
  stopped_row-Stopped o booking_id sandbox_id h row sandbox saved e there =
      elim (Bool-cases o.stopped) [
        | inl stopped ↦
            rw (there, stopped, saved)
              (
                refl,
                refl,
                status_of-upsert_booking booking_id (record row { status = "cancelled" }) h.rows
                    ∙ ground (arith, (eq_iff row.id booking_id).1 e),
                port_of-remove booking_id h.sandbox_ports,
              )
        | inr fails ↦ rw (there, fails) (refl, refl, refl, refl)
      ]

  -- Where the disk works, the cancellation of an active booking with a sandbox asks for the sandbox
  -- to be stopped, and for nothing else. If it stops, the event is handled, the row is cancelled
  -- and the port forgotten; if not, the event is an error, and the status of the row and the port
  -- stay.
  pub cancel_stops :
      (now : ℕ) (o : Outcomes) (booking_id sandbox_id : String) (h : BookingHandler)
      (row : BookingRow)
      → o.listed ≡ true
      → o.upserted ≡ true
      → find (λ r. r.id == booking_id) (list_active_bookings h.rows) ≡ some row
      → row.sandbox_id ≡ some sandbox_id
      → let (ok, after) = dispatch model_id_of now o (booking_cancelled booking_id) h in
        (after.calls ≡ h.calls ++ (stop sandbox_id ∷ []))
        × (ok ≡ o.stopped)
        × (status_of booking_id after.rows
            ≡ (if o.stopped then some "cancelled" else status_of booking_id h.rows))
        × (port_of booking_id after.sandbox_ports
            ≡ (if o.stopped then none else port_of booking_id h.sandbox_ports))
  unfolding dispatch
  cancel_stops now o booking_id sandbox_id h row listed saved active_row there =
      let done =
        stopped_row-Stopped o booking_id sandbox_id h row row.sandbox_id saved
          (find-id booking_id (list_active_bookings h.rows) row active_row) there in
      subst (Stopped o booking_id sandbox_id h)
        (sym (
          listed_cancel booking_id o h listed
          ∙ ap
              (λ (found : Option BookingRow).
                forget_port booking_id (finished o booking_id found h))
              active_row))
        done

  forgotten :
      (booking_id : String) (r : Bool × BookingHandler)
      → (forget_port booking_id r).0 ≡ true
      → port_of booking_id (forget_port booking_id r).1.sandbox_ports ≡ none
  forgotten booking_id (true, h) e = port_of-remove booking_id h.sandbox_ports
  forgotten booking_id (false, h) e = absurd (ground arith)

  relayed-none :
      (o : Outcomes) (booking_id content : String) (port : Option ℕ) (h : BookingHandler)
      → port ≡ none
      → relayed o booking_id content port h.api h ≡ h
  relayed-none o booking_id content port h e = rw e

  unlisted_cancel :
      (booking_id : String) (o : Outcomes) (h : BookingHandler)
      → o.listed ≡ false
      → (cancel booking_id o h).0 ≡ true
      → ⊥
  unlisted_cancel booking_id o h unreached ok = ground arith

  pub relayed-some :
      (o : Outcomes) (booking_id content token : String) (port : ℕ) (p : Option ℕ)
      (a : Option String) (h : BookingHandler)
      → p ≡ some port
      → a ≡ some token
      → (relayed o booking_id content p a h).calls
        ≡ h.calls
          ++ (sandbox_chat port content
              ∷ post_assistant_message token booking_id (answer_of o.chat)
              ∷ [])
  relayed-some o booking_id content token port p a h e1 e2 =
      rw (e1, e2)
        (append_assoc h.calls (sandbox_chat port content ∷ [])
          (post_assistant_message token booking_id (answer_of o.chat) ∷ []))

  written_keeps :
      (o : Outcomes) (row : BookingRow) (h : BookingHandler)
      → ((written o row h).1.sandbox_ports ≡ h.sandbox_ports) × ((written o row h).1.api ≡ h.api)
  written_keeps o row h = ground arith

  loaded-api : (config : String) (h : BookingHandler) → (loaded model_id_of config h).api ≡ h.api
  loaded-api config h = ground arith

  sandboxed_port :
      (booking_id offering_id sandbox_id : String) (now port : ℕ) (o : Outcomes)
      (handle : Option SandboxHandle) (h : BookingHandler)
      → handle ≡ some (record { sandbox_id = sandbox_id; forwarded_port = some port })
      → let after = (sandboxed booking_id offering_id now o handle h).1 in
        (port_of booking_id after.sandbox_ports ≡ some port) × (after.api ≡ h.api)
  sandboxed_port booking_id offering_id sandbox_id now port o handle h e =
      elim (Bool-cases o.upserted) [
        | inl saved ↦ rw (e, saved) (ground (arith, eq_refl booking_id), refl)
        | inr lost ↦ rw (e, lost) (ground (arith, eq_refl booking_id), refl)
      ]

  -- After a cancellation that was handled, whatever there was to stop, a message to the booking is only
  -- logged: it changes nothing and asks nothing of anyone.
  pub cancelled_silent :
      (now later : ℕ) (o p : Outcomes) (booking_id content : String) (h : BookingHandler)
      → (dispatch model_id_of now o (booking_cancelled booking_id) h).0 ≡ true
      → let after = (dispatch model_id_of now o (booking_cancelled booking_id) h).1 in
        dispatch model_id_of later p (message_user booking_id content) after ≡ (true, after)
  unfolding dispatch
  cancelled_silent now later o p booking_id content h ok = elim (Bool-cases o.listed) [
    | inl listed ↦
        let after = cancel booking_id o h in
        ap (λ (x : BookingHandler). (true, x))
          (relayed-none p booking_id content (port_of booking_id after.1.sandbox_ports) after.1 (
            subst
              (λ (r : Bool × BookingHandler).
                r.0 ≡ true → port_of booking_id r.1.sandbox_ports ≡ none)
              (sym (listed_cancel booking_id o h listed))
              (forgotten booking_id (
                finished o booking_id (find (λ r. r.id == booking_id) (list_active_bookings h.rows))
                  h))
              ok))
    | inr failed ↦ absurd (unlisted_cancel booking_id o h failed ok)
  ]

  -- A message to a booking whose sandbox has started and has a port goes to that port, and the answer,
  -- or the error in its place, is posted to the booking, under the worker's token.
  pub activated_answers :
      (now later : ℕ) (o p : Outcomes)
      (booking_id offering_id config content sandbox_id token : String) (port : ℕ)
      (h : BookingHandler)
      → o.started ≡ some (record { sandbox_id = sandbox_id; forwarded_port = some port })
      → h.api ≡ some token
      → let active_ =
          (dispatch model_id_of now o (booking_activated booking_id offering_id config) h).1 in
        (dispatch model_id_of later p (message_user booking_id content) active_).1.calls
        ≡ active_.calls
          ++ (sandbox_chat port content
              ∷ post_assistant_message token booking_id (answer_of p.chat)
              ∷ [])
  unfolding dispatch
  activated_answers now later o p booking_id offering_id config content sandbox_id token port h up
        wired =
      let begun =
        called (start booking_id offering_id "claw/agent-base:0.1" config)
          (loaded model_id_of config h) in
      let active_ = (sandboxed booking_id offering_id now o o.started begun).1 in
      let (there, same) =
        sandboxed_port booking_id offering_id sandbox_id now port o o.started begun up in
      relayed-some p booking_id content token port (port_of booking_id active_.sandbox_ports)
        active_.api active_ there (same ∙ loaded-api config h ∙ wired)
