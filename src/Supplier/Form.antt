-- ===== src/Supplier/Form.antt =====
-- web/src/app/dashboard/suppliers/offerings: the form of an offering (new/OfferingForm.tsx) and the pages
-- that create one (new/page.tsx) and edit one ([id]/edit/page.tsx).
use claw_compute.Prelude.{
  String, Bool, Option, none, some, false, [], ◌∷◌, ◌<>◌, show, join, if◌then◌else◌, inl, inr,
}
use claw_compute.Exec.{Exec, ◌>>=◌, pure, attempt}
use claw_compute.ApiTypes.{OfferingOut, OfferingStatus, draft, active, archived}
use claw_compute.Platform.{Platform, Env, State}
use claw_compute.Api.{given, get, request, defined}
use claw_compute.Forms.{FormState}
use claw_compute.Locale.{Locale}
use claw_compute.Html.{Html, el, leaf, say, for_some, flag, ◌<+>◌}
use claw_compute.Wallet.Page.{shown_error}
use claw_compute.Dashboard.Bookings.{unknown_is_missing}

unfoldable pub offering_status : OfferingStatus → String
offering_status draft = "draft"
offering_status active = "active"
offering_status archived = "archived"

unfoldable pub offering_submit : String → Bool → Html
offering_submit label pending =
    el "Button" (("type", "submit") ∷ ("disabled", flag pending) ∷ ("size", "lg") ∷ [])
      (say (if pending then "Saving…" else label))

-- `initial?.field ?? ""`
abbrev initial_text : (OfferingOut → String) → Option OfferingOut → String
initial_text field none = ""
initial_text field (some o) = field o

unfoldable pub initial_price : Option OfferingOut → String
unfolding show
initial_price none = "200"
initial_price (some o) = show o.price_per_hour_cents

unfoldable pub initial_status : Option OfferingOut → String
unfolding offering_status
initial_status none = "active"
initial_status (some o) = offering_status o.status

unfoldable pub offering_form : String → Option OfferingOut → String → Option FormState → Bool → Html
unfolding offering_submit initial_price initial_status join
offering_form action initial submit_label state pending = el "form" (("action", action) ∷ []) (
    el "div" [] (
      el "Label" (("htmlFor", "title") ∷ []) (say "Title")
      <+> leaf "Input" (
          ("id", "title")
          ∷ ("name", "title")
          ∷ ("required", "true")
          ∷ ("maxLength", "200")
          ∷ ("defaultValue", initial_text (λ o. o.title) initial)
          ∷ ("placeholder", "M3 Max sandbox + Qwen3.5-7B")
          ∷ []))
    <+> el "div" [] (
        el "Label" (("htmlFor", "description") ∷ []) (say "Description")
        <+> leaf "Textarea" (
            ("id", "description")
            ∷ ("name", "description")
            ∷ ("defaultValue", initial_text (λ o. o.description) initial)
            ∷ (
              "placeholder",
              "What's special about this machine — chip, RAM, network, model preloaded, etc.",
            )
            ∷ []))
    <+> el "div" [] (
        el "div" [] (
          el "Label" (("htmlFor", "price_per_hour_cents") ∷ []) (say "Price (cents/hour)")
          <+> leaf "Input" (
              ("id", "price_per_hour_cents")
              ∷ ("name", "price_per_hour_cents")
              ∷ ("type", "number")
              ∷ ("min", "0")
              ∷ ("required", "true")
              ∷ ("defaultValue", initial_price initial)
              ∷ [])
          <+> el "p" [] (say "200 = $2.00/hr. Marketplace takes 12%; you keep 88%."))
        <+> el "div" [] (
            el "Label" (("htmlFor", "status") ∷ []) (say "Status")
            <+> el "Select" (("name", "status") ∷ ("defaultValue", initial_status initial) ∷ []) (
                el "SelectTrigger" (("id", "status") ∷ []) (leaf "SelectValue" [])
                <+> el "SelectContent" [] (
                    el "SelectItem" (("value", "draft") ∷ []) (say "Draft (hidden from browse)")
                    <+> el "SelectItem" (("value", "active") ∷ []) (say "Active")
                    <+> el "SelectItem" (("value", "archived") ∷ []) (say "Archived")))))
    <+> el "div" [] (
        el "Label" (("htmlFor", "capability_tags") ∷ []) (say "Capability tags")
        <+> leaf "Input" (
            ("id", "capability_tags")
            ∷ ("name", "capability_tags")
            ∷ ("placeholder", "macos, mlx, m3-max, qwen3.5")
            ∷ ("defaultValue", initial_text (λ o. join ", " o.capability_tags) initial)
            ∷ [])
        <+> el "p" [] (say "Comma-separated. Consumers filter by these on the browse page."))
    <+> for_some (shown_error state) (λ message.
      el "Alert" (("variant", "destructive") ∷ []) (el "AlertDescription" [] (say message)))
    <+> el "div" [] (offering_submit submit_label pending))

unfoldable pub new_offering_page : Option FormState → Bool → Html
unfolding offering_form
new_offering_page state pending = el "div" [] (
    el "p" [] (say "New offering")
    <+> el "h1" [] (say "List a new capability")
    <+> el "p" [] (say "Tell consumers what your Mac is good at and what you charge per hour.")
    <+> offering_form "createOffering" none "Create offering" state pending)

-- The two actions are bound to the offering's id.
unfoldable pub edit_offering_view : OfferingOut → Html
unfolding offering_form
edit_offering_view offering = el "div" [] (
    el "p" [] (say "Edit offering")
    <+> el "h1" [] (say offering.title)
    <+> el "p" [] (
        say
          "Edits go live immediately for new bookings. Existing bookings keep their original price.")
    <+> offering_form "updateOffering" (some offering) "Save changes" none false
    <+> el "div" [] (
        el "h2" [] (say "Danger zone")
        <+> el "p" [] (
            say
              "Archiving removes this offering from browse. Existing bookings on it keep running.")
        <+> el "form" (("action", "archiveOffering") ∷ []) (
            el "Button" (("type", "submit") ∷ ("variant", "destructive") ∷ [])
              (say "Archive offering"))))

module _ (P : Platform) (env : Env) (L : Locale) where
  unfoldable pub edit_offering_page : String → Exec (State P) Html
  unfolding get request unknown_is_missing edit_offering_view
  edit_offering_page id = do
    loaded ← attempt (get P env P.as_offering ("/v1/offerings/" <> id) (given false))
    answer ← elim loaded [ inl e ↦ unknown_is_missing P env L e | inr o ↦ pure o ]
    offering ← defined P answer
    pure (edit_offering_view offering)
