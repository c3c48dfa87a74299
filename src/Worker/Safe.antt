-- ===== src/Worker/Safe.antt =====
-- The whole life of the worker's process (worker/src/api/ws.rs, worker/src/booking/mod.rs).
use claw_compute.Prelude.{ℕ, ◌≡◌, true, Option, none, some, List, [], ◌∷◌, String, All}
use claw_compute.Worker.Events.{WorkerEvent, Bytes, Codec, Boxes, event_of}
use claw_compute.Worker.Booking.{BookingHandler}
use claw_compute.Worker.Loop.{
  Frame, Attempt, unreached, connected, handled, session, next_backoff, run_ws,
}
use claw_compute.Worker.Tracked.{IsTracked, dispatch-IsTracked}

-- The disk takes every row.
abbrev pub IsSaved : Frame → Type 0
IsSaved f = f.outcomes.upserted ≡ true

abbrev pub AttemptSaved : Attempt → Type 0
AttemptSaved unreached = Unit
AttemptSaved (connected frames) = All IsSaved frames

module _ (codec : Codec) (boxes : Boxes) (model_id_of : String → Option String)
    (secret : Bytes) where
  handled-IsTracked :
      (f : Frame) (e : Option WorkerEvent) (h : BookingHandler)
      → IsSaved f
      → IsTracked h
      → IsTracked (handled codec boxes model_id_of secret f e h)
  handled-IsTracked f none h saved t = t
  handled-IsTracked f (some e) h saved t =
      dispatch-IsTracked model_id_of f.now f.outcomes e h saved t

  session-IsTracked :
      (frames : List Frame) (h : BookingHandler)
      → All IsSaved frames
      → IsTracked h
      → IsTracked (session codec boxes model_id_of secret frames h)
  session-IsTracked [] h saved t = t
  session-IsTracked (f ∷ frames) h (saved, rest) t =
      session-IsTracked frames
        (handled codec boxes model_id_of secret f (event_of codec boxes secret f.event) h) rest
        (handled-IsTracked f (event_of codec boxes secret f.event) h saved t)

  -- Through all connections and events, sealed or plain, and whatever fails but the writing of a
  -- row: the ports that messages are relayed to are those of bookings whose rows are active, if
  -- they are at the start.
  pub run_ws-IsTracked :
      (attempts : List Attempt) (backoff : ℕ) (h : BookingHandler)
      → All AttemptSaved attempts
      → IsTracked h
      → IsTracked (run_ws codec boxes model_id_of secret attempts backoff h).1
  unfolding run_ws
  run_ws-IsTracked [] backoff h saved t = t
  run_ws-IsTracked (unreached ∷ attempts) backoff h (saved, rest) t =
      run_ws-IsTracked attempts (next_backoff backoff) h rest t
  run_ws-IsTracked (connected frames ∷ attempts) backoff h (saved, rest) t =
      run_ws-IsTracked attempts (next_backoff 1) (session codec boxes model_id_of secret frames h)
        rest (session-IsTracked frames h saved t)
