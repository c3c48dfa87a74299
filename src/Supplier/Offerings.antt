-- ===== src/Supplier/Offerings.antt =====
-- web/src/app/dashboard/suppliers/offerings/page.tsx: the table of a supplier's offerings.
use claw_compute.Prelude.{
  String, List, [], ◌∷◌, ◌<>◌, ◌-◌, eqb, ltb, length, take, show, if◌then◌else◌, inl, inr,
}
use claw_compute.Exec.{Exec, Exception, api_error, error, thrown_value, ◌>>=◌, pure, raise, attempt}
use claw_compute.ApiTypes.{OfferingOut, OfferingStatus, draft, active, archived}
use claw_compute.Platform.{Platform, Env, State}
use claw_compute.Api.{unset, get, request, defined}
use claw_compute.Locale.{price}
use claw_compute.Html.{Html, el, leaf, say, when, each, ◌<+>◌}
use claw_compute.Supplier.Form.{offering_status}

unfoldable pub status_color : OfferingStatus → String
status_color draft = "bg-[rgb(var(--gold))]/10 text-accent-gold border-[rgb(var(--gold))]/35"
status_color active = "bg-[rgb(var(--settle))]/10 text-settle border-[rgb(var(--settle))]/35"
status_color archived =
    "bg-[rgb(var(--slate))]/10 text-[rgb(var(--slate))] border-[rgb(var(--slate))]/30"

unfoldable pub offerings_view : List OfferingOut → Html
unfolding price status_color offering_status show
offerings_view items = el "div" [] (
    el "header" [] (
      el "div" [] (el "p" [] (say "Supplier") <+> el "h1" [] (say "Offerings"))
      <+> el "Button" (("asChild", "true") ∷ []) (
          el "Link" (("href", "/dashboard/suppliers/offerings/new") ∷ [])
            (leaf "Plus" [] <+> say "New offering")))
    <+> (if eqb (length items) 0
        then el "div" [] (
            el "h2" [] (say "No offerings yet")
            <+> el "p" [] (
                say
                  "List a sandbox + inference capability and set your hourly rate. You can edit or archive any offering later.")
            <+> el "Button" (("asChild", "true") ∷ []) (
                el "Link" (("href", "/dashboard/suppliers/offerings/new") ∷ [])
                  (leaf "Plus" [] <+> say "Create your first offering")))
        else el "div" [] (
            el "Table" [] (
              el "TableHeader" [] (
                el "TableRow" [] (
                  el "TableHead" [] (say "Title")
                  <+> el "TableHead" [] (say "Price/hr")
                  <+> el "TableHead" [] (say "Tags")
                  <+> el "TableHead" [] (say "Status")
                  <+> leaf "TableHead" []))
              <+> el "TableBody" [] (
                  each
                    (λ o. el "TableRow" [] (
                      el "TableCell" [] (say o.title)
                      <+> el "TableCell" [] (say "$" <+> say (price o.price_per_hour_cents))
                      <+> el "TableCell" [] (
                          el "div" [] (
                            each (λ t. el "Badge" (("variant", "secondary") ∷ []) (say t))
                              (take 3 o.capability_tags)
                            <+> when (ltb 3 (length o.capability_tags)) (
                                el "span" []
                                  (say "+" <+> say (show (length o.capability_tags - 3))))))
                      <+> el "TableCell" [] (
                          el "Badge"
                            (("variant", "outline") ∷ ("className", status_color o.status) ∷ [])
                            (say (offering_status o.status)))
                      <+> el "TableCell" [] (
                          el "Button"
                            (("asChild", "true") ∷ ("size", "sm") ∷ ("variant", "ghost") ∷ [])
                            (el "Link"
                              (("href", "/dashboard/suppliers/offerings/" <> o.id <> "/edit") ∷ [])
                              (say "Edit")))))
                    (items))))))

module _ (P : Platform) (env : Env) where
  -- An `ApiError` leaves the table empty.
  quietly : Exception → Exec (State P) (List OfferingOut)
  quietly (api_error status message) = pure []
  quietly (error message) = raise (error message)
  quietly thrown_value = raise thrown_value

  unfoldable pub offerings_page : Exec (State P) Html
  unfolding get request quietly offerings_view
  offerings_page = do
    loaded ← attempt (get P env P.as_offerings "/v1/offerings" unset >>= defined P)
    items ← elim loaded [ inl e ↦ quietly e | inr data_out ↦ pure data_out.items ]
    pure (offerings_view items)
