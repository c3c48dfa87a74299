-- ===== src/Worker/Loop.antt =====
-- worker/src/api/ws.rs: the connection to the marketplace, and how long the worker waits for the next.
use claw_compute.Prelude.{
  ℕ, ◌*◌, ◌≤◌, ◌≡◌, refl, Option, none, some, List, [], ◌∷◌, String, ltb, if◌then◌else◌, arith, ap,
  All, length, suc,
}
use claw_compute.Worker.Events.{WorkerEvent, Bytes, Codec, Boxes, event_of}
use claw_compute.Worker.Booking.{Outcomes, BookingHandler, dispatch}

-- A frame that is read as an event, and what the calls that it causes come to.
pub record Frame : Type 0 where
  pub now : ℕ
  pub outcomes : Outcomes
  pub event : WorkerEvent

-- An attempt to connect: it fails, or frames come until the connection ends.
pub data Attempt : Type 0 where
  unreached : Attempt
  connected : List Frame → Attempt

abbrev pub next_backoff : ℕ → ℕ
next_backoff backoff = if ltb 60 (backoff * 2) then 60 else backoff * 2

next_backoff-bounds : (b : ℕ) → 1 ≤ b → b ≤ 60 → (1 ≤ next_backoff b) × (next_backoff b ≤ 60)
next_backoff-bounds b lo hi = ground arith

abbrev pub InMinute : ℕ → Type 0
InMinute s = (1 ≤ s) × (s ≤ 60)

module _ (codec : Codec) (boxes : Boxes) (model_id_of : String → Option String)
    (secret : Bytes) where
  -- An error of the handler is only logged.
  abbrev pub handled : Frame → Option WorkerEvent → BookingHandler → BookingHandler
  handled f none h = h
  handled f (some e) h = (dispatch model_id_of f.now f.outcomes e h).1

  abbrev pub session : List Frame → BookingHandler → BookingHandler
  session [] h = h
  session (f ∷ frames) h = session frames (handled f (event_of codec boxes secret f.event) h)

  abbrev pub attempted : Attempt → ℕ × BookingHandler → ℕ × BookingHandler
  attempted unreached (backoff, h) = (backoff, h)
  attempted (connected frames) (backoff, h) = (1, session frames h)

  -- `run_ws`: the seconds that the worker sleeps after each attempt, and the handler at the end.
  unfoldable pub run_ws : List Attempt → ℕ → BookingHandler → List ℕ × BookingHandler
  run_ws [] backoff h = ([], h)
  run_ws (a ∷ attempts) backoff h =
      let (wait, h') = attempted a (backoff, h) in
      let (waits, last) = run_ws attempts (next_backoff wait) h' in (wait ∷ waits, last)

  -- After every attempt to connect, failed or not, the worker sleeps once, between one second and a
  -- minute, if its first wait is in that range.
  pub waits-run_ws :
      (attempts : List Attempt) (backoff : ℕ) (h : BookingHandler)
      → 1 ≤ backoff
      → backoff ≤ 60
      → All InMinute (run_ws attempts backoff h).0
        × (length (run_ws attempts backoff h).0 ≡ length attempts)
  unfolding run_ws
  waits-run_ws [] backoff h lo hi = (tt, refl)
  waits-run_ws (unreached ∷ attempts) backoff h lo hi =
      let (lo', hi') = next_backoff-bounds backoff lo hi in
      let (rest, count) = waits-run_ws attempts (next_backoff backoff) h lo' hi' in
      (((lo, hi), rest), ap suc count)
  waits-run_ws (connected frames ∷ attempts) backoff h lo hi =
      let (rest, count) =
        waits-run_ws attempts (next_backoff 1) (session frames h) (omega arith) (omega arith) in
      (((omega arith, omega arith), rest), ap suc count)
