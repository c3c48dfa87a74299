-- ===== src/Chat.antt =====
-- web/src/components/dashboard/ChatThread.tsx: the thread's state. A submission shows its message at
-- once, and the answer of `sendMessage` replaces that message or removes it. Submissions may overlap:
-- Ctrl+Enter asks for one whether the button is disabled or not.
pub mod Sends
mod Updates
mod Distinct
pub mod Laws
pub mod View
use claw_compute.Prelude.{
  ℕ, suc, ◌+◌, ◌-◌, String, Bool, not, Option, none, some, List, [], ◌∷◌, ◌++◌, ◌<>◌, ◌==◌, show,
  map, filter, if◌then◌else◌,
}
use claw_compute.ApiTypes.{MessageOut, user}
use claw_compute.Forms.{FormData}
use claw_compute.Actions.{SendMessageResult, sent, unsent, content_of}

-- `isPending` holds while a transition is in flight.
pub record Chat : Type 0 where
  pub messages : List MessageOut
  pub error : Option String
  pub in_flight : ℕ

unfoldable pub opened : List MessageOut → Chat
opened messages = record { messages = messages; error = none; in_flight = 0 }

-- The clock's reading in milliseconds and as an ISO text.
unfoldable pub optimistic : String → ℕ → String → MessageOut
unfolding show
optimistic content now iso = record {
  id = "local-" <> show now;
  role = user;
  content = content;
  created_at = iso;
}

unfoldable pub show_message : MessageOut → Chat → Chat
show_message m chat = record chat {
  messages = chat.messages ++ (m ∷ []);
  error = none;
  in_flight = suc chat.in_flight;
}

-- `onSubmit` up to the call of `sendMessage`. A blank message changes nothing.
unfoldable pub on_submit : FormData → ℕ → String → Chat → Chat
unfolding optimistic show_message content_of
on_submit form now iso chat = elim (content_of form) [
  | none ↦ chat
  | some content ↦ show_message (optimistic content now iso) chat
]

abbrev pub has_id : String → MessageOut → Bool
has_id id m = m.id == id

unfoldable pub replace : String → MessageOut → List MessageOut → List MessageOut
replace id new = map (λ m. if has_id id m then new else m)

unfoldable pub remove : String → List MessageOut → List MessageOut
remove id = filter (λ m. not (has_id id m))

-- What `onSubmit` does with the result, for the submission whose local message has the id.
unfoldable pub settle : String → SendMessageResult → Chat → Chat
unfolding replace remove
settle id (sent m) chat = record chat {
  messages = replace id m chat.messages;
  in_flight = chat.in_flight - 1;
}
settle id (unsent message) chat = record chat {
  messages = remove id chat.messages;
  error = some message;
  in_flight = chat.in_flight - 1;
}
