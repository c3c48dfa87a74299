-- ===== src/Chat/View.antt =====
-- web/src/components/dashboard/ChatThread.tsx: what the thread shows of its state.
use claw_compute.Prelude.{Bool, true, false, not, [], ◌∷◌, eqb, ltb, length, if◌then◌else◌}
use claw_compute.ApiTypes.{user, assistant, MessageOut}
use claw_compute.Html.{Html, el, leaf, say, when, for_some, each, flag, ◌<+>◌}
use claw_compute.Session.{truthy}
use claw_compute.Chat.{Chat}

abbrev is_user : MessageOut → Bool
is_user m = elim m.role [ user ↦ true | assistant ↦ false ]

unfoldable pub bubble : MessageOut → Html
bubble m = el "li" (("className", if is_user m then "justify-end" else "") ∷ []) (
    when (not (is_user m)) (el "div" [] (leaf "Bot" []))
    <+> el "div"
        ((
          "className",
          if is_user m
              then "bg-foreground text-background"
              else "bg-card text-foreground border border-border/60",
        )
          ∷ [])
        (say m.content)
    <+> when (is_user m) (el "div" [] (leaf "User" [])))

unfoldable pub chat_view : Chat → Html
unfolding bubble
chat_view chat = el "div" [] (
    el "div" [] (
      (if eqb (length chat.messages) 0
        then el "div" []
            (el "p" [] (say "Send the first message — the agent is waiting on the supplier's Mac."))
        else el "ul" [] (each (λ m. bubble m) (chat.messages))))
    <+> for_some (truthy chat.error) (λ message.
      el "Alert" (("variant", "destructive") ∷ []) (el "AlertDescription" [] (say message)))
    <+> el "form" (("action", "onSubmit") ∷ []) (
        leaf "Textarea"
          (("name", "content") ∷ ("placeholder", "Message the agent…") ∷ ("required", "true") ∷ [])
        <+> el "Button"
            (("type", "submit") ∷ ("disabled", flag (ltb 0 chat.in_flight)) ∷ ("size", "lg") ∷ [])
            (leaf "Send" [] <+> el "span" [] (say "Send")))
    <+> el "p" [] (say "Press ⌘+Enter (Mac) or Ctrl+Enter to send."))
