-- ===== src/Chat/Sends.antt =====
-- The thread as its history (web/src/components/dashboard/ChatThread.tsx): the messages that the page
-- was opened with, and each submission with the result that it got, if it got one.
use claw_compute.Prelude.{
  ◌⊎◌, ℕ, String, Bool, true, false, Option, none, some, List, [], ◌∷◌, ◌++◌, ◌≡◌, ◌&&◌,
  if◌then◌else◌, All,
}
use claw_compute.ApiTypes.{MessageOut}
use claw_compute.Forms.{FormData}
use claw_compute.Actions.{SendMessageResult, sent, unsent, content_of}
use claw_compute.Chat.{Chat, optimistic, on_submit, settle, has_id}

pub record Send : Type 0 where
  pub local : MessageOut
  pub result : Option SendMessageResult

-- What a submission shows: its own message, then the server's, or nothing after a failure.
abbrev pub shown_as : MessageOut → Option SendMessageResult → List MessageOut
shown_as local none = local ∷ []
shown_as local (some (sent m)) = m ∷ []
shown_as local (some (unsent message)) = []

abbrev pub shown : List Send → List MessageOut
shown [] = []
shown (s ∷ ss) = shown_as s.local s.result ++ shown ss

abbrev pub is_waiting : Option SendMessageResult → Bool
is_waiting none = true
is_waiting (some r) = false

abbrev pub submitted : FormData → ℕ → String → List Send → List Send
submitted form now iso ss = elim (content_of form) [
  | none ↦ ss
  | some content ↦ ss ++ (record { local = optimistic content now iso; result = none } ∷ [])
]

-- The submission waits under the id.
abbrev pub hits : String → Send → Bool
hits id s = is_waiting s.result && has_id id s.local

-- The result goes to the submission that waits under the id.
abbrev pub answered : String → SendMessageResult → List Send → List Send
answered id r [] = []
answered id r (s ∷ ss) =
    if hits id s then record { local = s.local; result = some r } ∷ ss else s ∷ answered id r ss

pub data Event : Type 0 where
  submit : FormData → ℕ → String → Event
  answer : String → SendMessageResult → Event

abbrev pub chat_step : Event → Chat → Chat
chat_step (submit form now iso) chat = on_submit form now iso chat
chat_step (answer id r) chat = settle id r chat

abbrev pub send_step : Event → List Send → List Send
send_step (submit form now iso) ss = submitted form now iso ss
send_step (answer id r) ss = answered id r ss

unfoldable pub chat_run : List Event → Chat → Chat
chat_run [] chat = chat
chat_run (e ∷ es) chat = chat_run es (chat_step e chat)

unfoldable pub send_run : List Event → List Send → List Send
send_run [] ss = ss
send_run (e ∷ es) ss = send_run es (send_step e ss)

-- No message of the list has the id.
abbrev pub Absent : String → List MessageOut → Type 0
Absent id = All (λ m. has_id id m ≡ false)

abbrev pub Waits : String → List Send → Type 0
Waits id [] = ⊥
Waits id (s ∷ ss) = (hits id s ≡ true) ⊎ ((hits id s ≡ false) × Waits id ss)

-- A message of the server has the id of no submission that still waits.
abbrev pub Foreign : MessageOut → List Send → Type 0
Foreign m = All (λ s. is_waiting s.result ≡ true → has_id s.local.id m ≡ false)

abbrev pub Proper : SendMessageResult → List Send → Type 0
Proper (sent m) ss = Foreign m ss
Proper (unsent message) ss = Unit

-- What the clock and the server are relied on for: a new local id is in use nowhere, an answer belongs
-- to a submission that waits, and the server's message has an id of its own.
abbrev pub Allowed : List MessageOut → List Send → Event → Type 0
Allowed initial ss (submit form now iso) =
    (content : String)
    → content_of form ≡ some content
    → Absent (optimistic content now iso).id (initial ++ shown ss)
Allowed initial ss (answer id r) = Waits id ss × Proper r ss

abbrev pub AllAllowed : List MessageOut → List Send → List Event → Type 0
AllAllowed initial ss [] = Unit
AllAllowed initial ss (e ∷ es) = Allowed initial ss e × AllAllowed initial (send_step e ss) es
