-- ===== src/Supplier/NewWorker.antt =====
-- web/src/app/dashboard/suppliers/workers/new/page.tsx and components/dashboard/InstallSnippet.tsx: naming
-- a machine, and the commands that bring it online. The clipboard
-- is left out: a snippet shows whether it was copied.
use claw_compute.Prelude.{String, Bool, false, Option, none, some, [], ◌∷◌, ◌<>◌, if◌then◌else◌}
use claw_compute.Session.{truthy, default_to}
use claw_compute.Forms.{FormData, entry}
use claw_compute.Actions.{WorkerResult, created, refused}
use claw_compute.Html.{Html, el, leaf, say, for_some, flag, ◌<+>◌}

pub data Stage : Type 0 where
  naming snippet : Stage

pub record NewWorker : Type 0 where
  pub stage : Stage
  pub token : Option String
  pub name : String
  pub error : Option String
  pub pending : Bool

unfoldable pub fresh_worker : NewWorker
fresh_worker = record { stage = naming; token = none; name = ""; error = none; pending = false }

-- `onSubmit` after the answer of `createWorker`.
unfoldable pub installed_worker : FormData → WorkerResult → NewWorker → NewWorker
installed_worker form (refused message) s = record s { error = some message; pending = false }
installed_worker form (created token worker_id) s = record s {
  error = none;
  pending = false;
  token = some token;
  name = default_to "" (entry "name" form);
  stage = snippet;
}

unfoldable pub install_snippet : Bool → String → Html
install_snippet copied line = el "div" [] (
    el "pre" [] (el "code" [] (say line))
    <+> el "button"
        (("type", "button") ∷ ("aria-label", if copied then "Copied" else "Copy to clipboard") ∷ [])
        ((if copied then leaf "Check" [] else leaf "Copy" [])))

unfoldable pub install_command : String → String
install_command api_url =
    "curl -fsSL " <> api_url <> "/install.sh | CLAW_API_URL=" <> api_url <> " bash"

unfoldable pub register_command : String → Option String → String
register_command api_url token =
    "claw-worker register --api-url "
    <> api_url
    <> " --provisioning-token "
    <> default_to "null" token
    <> "\nclaw-worker run --api-url "
    <> api_url

unfoldable pub name_stage : NewWorker → Html
name_stage s = el "div" [] (
    el "p" [] (say "New worker")
    <+> el "h1" [] (say "Name your machine")
    <+> el "p" [] (
        say "Pick something you'll recognise — e.g. "
        <+> el "code" [] (say "mac-studio-1")
        <+> say ".")
    <+> el "form" (("action", "onSubmit") ∷ []) (
        el "div" [] (
          el "Label" (("htmlFor", "name") ∷ []) (say "Worker name")
          <+> leaf "Input" (
              ("id", "name")
              ∷ ("name", "name")
              ∷ ("required", "true")
              ∷ ("maxLength", "120")
              ∷ ("placeholder", "mac-studio-1")
              ∷ []))
        <+> for_some (truthy s.error) (λ message.
          el "Alert" (("variant", "destructive") ∷ []) (el "AlertDescription" [] (say message)))
        <+> el "Button" (("type", "submit") ∷ ("disabled", flag s.pending) ∷ ("size", "lg") ∷ []) (
            (if s.pending
              then say "Issuing token…"
              else say "Get install command" <+> leaf "ArrowRight" []))))

unfoldable pub snippet_stage : String → NewWorker → Html
unfolding install_snippet install_command register_command
snippet_stage api_url s = el "div" [] (
    el "p" [] (say "Run on your Mac")
    <+> el "h1" [] (say "Three commands. You're online.")
    <+> el "p" [] (
        say "Worker "
        <+> el "span" [] (say s.name)
        <+> say " is provisioned. Run these on the Mac you want to share.")
    <+> el "ol" [] (
        el "li" [] (
          el "header" []
            (el "span" [] (say "1") <+> leaf "Terminal" [] <+> el "p" [] (say "Install the worker"))
          <+> install_snippet false (install_command api_url))
        <+> el "li" [] (
            el "header" []
              (el "span" [] (say "2") <+> leaf "KeyRound" [] <+> el "p" [] (say "Register and run"))
            <+> install_snippet false (register_command api_url s.token)
            <+> el "p" [] (
                el "strong" [] (say "Save the token now.")
                <+> say
                    " It's shown once and discarded server-side after register succeeds. If you lose it, just create a new worker.")))
    <+> el "div" [] (
        el "Button" (("asChild", "true") ∷ []) (
          el "Link" (("href", "/dashboard/suppliers/workers") ∷ [])
            (say "Back to workers" <+> leaf "ArrowRight" []))
        <+> el "Button" (("asChild", "true") ∷ ("variant", "ghost") ∷ []) (
            el "Link" (("href", "/dashboard/suppliers/offerings/new") ∷ [])
              (say "Add an offering"))))

unfoldable pub new_worker_page : String → NewWorker → Html
unfolding name_stage snippet_stage
new_worker_page api_url s = elim s.stage [
  | naming ↦ name_stage s
  | snippet ↦ snippet_stage api_url s
]
