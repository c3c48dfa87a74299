-- ===== src/Chat/Laws.antt =====
-- The thread shows its history, in whatever order the answers arrive
-- (web/src/components/dashboard/ChatThread.tsx).
use claw_compute.Prelude.{none, List, [], ◌∷◌, ◌++◌, ◌≡◌, sym, ap, ◌∙◌, inl, inr, Option-cases}
use mathlib.Core.List.{append_assoc, append-nil}
use claw_compute.ApiTypes.{MessageOut}
use claw_compute.Actions.{sent, unsent, content_of}
use claw_compute.Chat.{Chat, show_message, opened, optimistic, on_submit, settle, replace, remove}
use claw_compute.Chat.Sends.{
  Send, shown, submitted, Event, submit, answer, chat_step, send_step, chat_run, send_run, Allowed,
  AllAllowed,
}
use claw_compute.Chat.Distinct.{
  Distinct, apply-shown, shown-append, Distinct-submit, Distinct-answer,
}

shown_added :
    (m : MessageOut) (initial : List MessageOut) (ss : List Send) {ms : List MessageOut}
    → ms ≡ initial ++ shown ss
    → ms ++ (m ∷ []) ≡ initial ++ shown (ss ++ (record { local = m; result = none } ∷ []))
shown_added m initial ss same = rw (same, shown-append) (append_assoc initial (shown ss) (m ∷ []))

-- One event keeps the two views together, and the invariant.
step-shown :
    (initial : List MessageOut) (ss : List Send) (chat : Chat) (e : Event)
    → Allowed initial ss e
    → Distinct initial ss
    → chat.messages ≡ initial ++ shown ss
    → (chat_step e chat).messages ≡ initial ++ shown (send_step e ss)
unfolding on_submit settle show_message
step-shown initial ss chat (submit form now iso) ok d same = elim (Option-cases (content_of form)) [
  | inl blank ↦ rw (blank, on_submit, submitted, shown) same
  | inr (content, e) ↦
      rw (e, on_submit, submitted, shown) (shown_added (optimistic content now iso) initial ss same)
]
step-shown initial ss chat (answer id (sent m)) (w, p) d same =
    ap (replace id m) same ∙ apply-shown id (sent m) initial ss d w
step-shown initial ss chat (answer id (unsent t)) (w, p) d same =
    ap (remove id) same ∙ apply-shown id (unsent t) initial ss d w

step-Distinct :
    (initial : List MessageOut) (ss : List Send) (e : Event)
    → Allowed initial ss e
    → Distinct initial ss
    → Distinct initial (send_step e ss)
step-Distinct initial ss (submit form now iso) ok d = elim (Option-cases (content_of form)) [
  | inl blank ↦ rw (blank, submitted, Distinct) d
  | inr (content, e) ↦
      rw (e, submitted, Distinct)
        (Distinct-submit (optimistic content now iso) initial ss d (ok content e))
]
step-Distinct initial ss (answer id r) (w, p) d = Distinct-answer id r initial ss d w p

run-shown :
    (initial : List MessageOut) (es : List Event) (ss : List Send) (chat : Chat)
    → AllAllowed initial ss es
    → Distinct initial ss
    → chat.messages ≡ initial ++ shown ss
    → (chat_run es chat).messages ≡ initial ++ shown (send_run es ss)
unfolding chat_run send_run
run-shown initial [] ss chat ok d same = same
run-shown initial (e ∷ es) ss chat (ok, oks) d same =
    run-shown initial es (send_step e ss) (chat_step e chat) oks (step-Distinct initial ss e ok d)
      (step-shown initial ss chat e ok d same)

-- Whatever the interleaving of submissions and answers, the thread shows the messages that the page
-- was opened with and then, in the order of submission, each submission as its own message while it
-- waits, as the server's message once it is accepted, and not at all once it is refused. Local ids are
-- fresh, an answer belongs to a waiting submission, and no server message has a waiting one's id.
pub chat_run-shown :
    (initial : List MessageOut) (es : List Event)
    → AllAllowed initial [] es
    → (chat_run es (opened initial)).messages ≡ initial ++ shown (send_run es [])
unfolding opened
chat_run-shown initial es ok =
    run-shown initial es [] (opened initial) ok tt (sym (append-nil initial))
