-- ===== src/Worker/Booking.antt =====
-- worker/src/booking/mod.rs, worker/src/state.rs: what the worker does on an event. The sandboxes, the
-- model host, the disk and the marketplace answer as an `Outcomes` says; what they are asked is kept
-- in `calls`.
use claw_compute.Prelude.{
  ℕ, Bool, true, false, Option, none, some, List, [], ◌∷◌, ◌++◌, find, filter, not, String, ◌==◌,
  ◌<>◌, if◌then◌else◌,
}
use claw_compute.Worker.Events.{
  WorkerEvent, ping, booking_activated, booking_cancelled, message_user, sealed,
}

pub record SandboxHandle : Type 0 where
  pub sandbox_id : String
  pub forwarded_port : Option ℕ

pub record BookingRow : Type 0 where
  pub id : String
  pub offering_id : String
  pub status : String
  pub started_at : Option ℕ
  pub sandbox_id : Option String

-- What the handler asks of the rest of the machine and of the marketplace.
pub data Call : Type 0 where
  ensure_loaded : (model_id : String) → Call
  start : (booking_id offering_id image agent_config : String) → Call
  stop : (sandbox_id : String) → Call
  sandbox_chat : (port : ℕ) (content : String) → Call
  post_assistant_message : (token booking_id content : String) → Call

pub data ChatResult : Type 0 where
  reply : String → ChatResult
  chat_failed : String → ChatResult

-- `started` is the new sandbox, if it started; the Booleans say whether the call succeeds.
pub record Outcomes : Type 0 where
  pub started : Option SandboxHandle
  pub stopped : Bool
  pub listed : Bool
  pub upserted : Bool
  pub chat : ChatResult

-- `api` is the token of the worker, if the handler is wired to the marketplace.
pub record BookingHandler : Type 0 where
  pub model_host : Bool
  pub api : Option String
  pub sandbox_ports : List (String × ℕ)
  pub rows : List BookingRow
  pub calls : List Call

abbrev pub port_of : String → List (String × ℕ) → Option ℕ
port_of id [] = none
port_of id ((k, port) ∷ ports) = if k == id then some port else port_of id ports

abbrev pub without : String → List (String × ℕ) → List (String × ℕ)
without id [] = []
without id ((k, port) ∷ ports) = if k == id then without id ports else (k, port) ∷ without id ports

abbrev pub insert : String → ℕ → List (String × ℕ) → List (String × ℕ)
insert id port ports = (id, port) ∷ without id ports

-- A conflict on the id keeps the offering of the row that is there.
abbrev pub upsert_booking : BookingRow → List BookingRow → List BookingRow
upsert_booking row [] = row ∷ []
upsert_booking row (r ∷ rows) =
    if r.id == row.id
    then record row { offering_id = r.offering_id } ∷ rows
    else r ∷ upsert_booking row rows

abbrev pub list_active_bookings : List BookingRow → List BookingRow
list_active_bookings rows = filter (λ r. r.status == "active") rows

abbrev pub called : Call → BookingHandler → BookingHandler
called call h = record h { calls = h.calls ++ (call ∷ []) }

-- The row is written, if the disk lets it; the Boolean says whether the event was handled.
abbrev pub written : Outcomes → BookingRow → BookingHandler → Bool × BookingHandler
written o row h =
    if o.upserted then (true, record h { rows = upsert_booking row h.rows }) else (false, h)

abbrev pub model_of : Option String → String
model_of none = "qwen"
model_of (some model_id) = model_id

abbrev pub with_port : String → Option ℕ → BookingHandler → BookingHandler
with_port booking_id none h = h
with_port booking_id (some port) h = record h {
  sandbox_ports = insert booking_id port h.sandbox_ports;
}

abbrev pub sandboxed :
    (booking_id offering_id : String) (now : ℕ)
    → Outcomes
    → Option SandboxHandle
    → BookingHandler
    → Bool × BookingHandler
sandboxed booking_id offering_id now o none h = (false, h)
sandboxed booking_id offering_id now o (some handle) h =
    written o
      (record {
        id = booking_id;
        offering_id = offering_id;
        status = "active";
        started_at = some now;
        sandbox_id = some handle.sandbox_id;
      })
      (with_port booking_id handle.forwarded_port h)

abbrev pub forget_port : String → Bool × BookingHandler → Bool × BookingHandler
forget_port booking_id (false, h) = (false, h)
forget_port booking_id (true, h) =
    (true, record h { sandbox_ports = without booking_id h.sandbox_ports })

abbrev pub cancelled_row : Outcomes → BookingRow → BookingHandler → Bool × BookingHandler
cancelled_row o row h = written o (record row { status = "cancelled" }) h

abbrev pub stopped_row :
    Outcomes → BookingRow → Option String → BookingHandler → Bool × BookingHandler
stopped_row o row none h = cancelled_row o row h
stopped_row o row (some sandbox_id) h =
    if o.stopped
    then cancelled_row o row (called (stop sandbox_id) h)
    else (false, called (stop sandbox_id) h)

abbrev pub finished :
    Outcomes → (booking_id : String) → Option BookingRow → BookingHandler → Bool × BookingHandler
finished o booking_id none h = (true, h)
finished o booking_id (some row) h = stopped_row o row row.sandbox_id h

abbrev pub cancel : (booking_id : String) → Outcomes → BookingHandler → Bool × BookingHandler
cancel booking_id o h =
    if not o.listed
    then (false, h)
    else forget_port booking_id
        (finished o booking_id (find (λ r. r.id == booking_id) (list_active_bookings h.rows)) h)

abbrev pub answer_of : ChatResult → String
answer_of (reply text) = text
answer_of (chat_failed e) = "(agent error: " <> e <> ")"

abbrev pub relayed :
    Outcomes
    → (booking_id content : String) → Option ℕ
    → Option String
    → BookingHandler
    → BookingHandler
relayed o booking_id content (some port) (some token) h =
    called (post_assistant_message token booking_id (answer_of o.chat))
      (called (sandbox_chat port content) h)
relayed o booking_id content (some port) none h = h
relayed o booking_id content none api h = h

abbrev pub relay_message :
    Outcomes → (booking_id content : String) → BookingHandler → BookingHandler
relay_message o booking_id content h =
    relayed o booking_id content (port_of booking_id h.sandbox_ports) h.api h

-- `agent_config.get("model_id")`, as text, with its default.
module _ (model_id_of : String → Option String) where
  abbrev pub loaded : String → BookingHandler → BookingHandler
  loaded agent_config h =
      if h.model_host then called (ensure_loaded (model_of (model_id_of agent_config))) h else h

  abbrev pub activate :
      (booking_id offering_id agent_config : String) (now : ℕ)
      → Outcomes
      → BookingHandler
      → Bool × BookingHandler
  activate booking_id offering_id agent_config now o h =
      sandboxed booking_id offering_id now o o.started (
        called (start booking_id offering_id "claw/agent-base:0.1" agent_config)
          (loaded agent_config h))

  -- Whether the event was handled without an error, and the handler after it.
  unfoldable pub dispatch : ℕ → Outcomes → WorkerEvent → BookingHandler → Bool × BookingHandler
  dispatch now o ping h = (true, h)
  dispatch now o (booking_activated booking_id offering_id agent_config) h =
      activate booking_id offering_id agent_config now o h
  dispatch now o (booking_cancelled booking_id) h = cancel booking_id o h
  dispatch now o (message_user booking_id content) h = (true, relay_message o booking_id content h)
  dispatch now o (sealed env) h = (true, h)
