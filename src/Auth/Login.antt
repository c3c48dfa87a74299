-- ===== src/Auth/Login.antt =====
-- web/src/app/auth/login/page.tsx: the sign-in form.
use claw_compute.Prelude.{Bool, true, false, ◌||◌, Option, none, some, [], ◌∷◌, if◌then◌else◌}
use claw_compute.Platform.{Env}
use claw_compute.Session.{truthy}
use claw_compute.Forms.{FormState}
use claw_compute.Html.{Html, el, leaf, say, when, for_some, flag, ◌<+>◌}
use claw_compute.Wallet.Page.{shown_error, is_saved}

-- `!process.env.NEXT_PUBLIC_API_URL`
unfoldable pub public_preview : Env → Bool
public_preview env = elim (truthy env.next_public_api_url) [ none ↦ true | some url ↦ false ]

unfoldable pub login_submit : Env → Bool → Html
unfolding public_preview
login_submit env pending =
    el "Button" (("type", "submit") ∷ ("disabled", flag (pending || public_preview env)) ∷ []) (
      say (
        if public_preview env
        then "Sign-in coming soon"
        else if pending
        then "Sending…"
        else "Email me a magic link"))

unfoldable pub login_page : Env → Option FormState → Bool → Html
unfolding login_submit
login_page env state pending = el "main" [] (
    el "Card" [] (
      el "CardHeader" [] (el "CardTitle" [] (say "Sign in"))
      <+> el "CardContent" [] (
          when (public_preview env) (
            el "Alert" [] (
              el "AlertDescription" [] (
                leaf "Info" []
                <+> el "span" [] (
                    say
                      "This is a public preview — the marketplace API isn't live yet. Browse + pricing work; sign-in will go live as soon as the backend is deployed."))))
          <+> el "form" (("action", "requestMagicLink") ∷ []) (
              el "div" [] (
                el "Label" (("htmlFor", "email") ∷ []) (say "Email")
                <+> leaf "Input" (
                    ("id", "email")
                    ∷ ("name", "email")
                    ∷ ("type", "email")
                    ∷ ("required", "true")
                    ∷ ("disabled", flag (public_preview env))
                    ∷ []))
              <+> login_submit env pending
              <+> when (is_saved state) (
                  el "Alert" [] (
                    el "AlertDescription" [] (
                      say
                        "Check your inbox for a sign-in link. (In dev, it's logged to the API console.)")))
              <+> for_some (shown_error state) (λ message.
                el "Alert" (("variant", "destructive") ∷ [])
                  (el "AlertDescription" [] (say message)))))))
