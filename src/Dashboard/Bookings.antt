-- ===== src/Dashboard/Bookings.antt =====
-- web/src/app/dashboard/bookings: the list of a consumer's bookings (page.tsx) and one booking with its
-- chat and its settlements ([id]/page.tsx).
pub mod Laws
use claw_compute.Prelude.{
  String, Bool, true, false, Option, none, some, List, [], ◌∷◌, ◌<>◌, eqb, ltb, length, slice_to,
  if◌then◌else◌, inl, inr,
}
use claw_compute.Exec.{
  Exec, Exception, api_error, error, thrown_value, ◌>>=◌, pure, raise, missing, attempt, both,
}
use claw_compute.ApiTypes.{
  BookingStatus, pending, active, completed, cancelled, BookingOut, MessageOut, LedgerOut,
  LedgerEntry, SettlementKind, opening, settle, cancel,
}
use claw_compute.Platform.{Platform, Env, State}
use claw_compute.Session.{truthy}
use claw_compute.Api.{unset, get, request, defined}
use claw_compute.SafeApi.{safe_get}
use claw_compute.Html.{Html, el, leaf, say, for_some, each, ◌<+>◌}
use claw_compute.Locale.{Locale}
use claw_compute.Usdc.{format_usdc, format_duration, short_hash, tx_url, empty_ledger}
use claw_compute.Ledger.Chip.{kind_chip}
use claw_compute.Ledger.Table.{units}
use claw_compute.Chat.{opened}
use claw_compute.Chat.View.{chat_view}

unfoldable pub booking_status : BookingStatus → String
booking_status pending = "pending"
booking_status active = "active"
booking_status completed = "completed"
booking_status cancelled = "cancelled"

unfoldable pub booking_style : BookingStatus → String
booking_style pending = "bg-[rgb(var(--gold))]/10 text-accent-gold border-[rgb(var(--gold))]/35"
booking_style active = "bg-[rgb(var(--settle))]/10 text-settle border-[rgb(var(--settle))]/35"
booking_style completed = "bg-white/5 text-foreground border-white/15"
booking_style cancelled =
    "bg-[rgb(var(--slate))]/10 text-[rgb(var(--slate))] border-[rgb(var(--slate))]/30"

unfoldable pub date_or : Locale → Option String → String
date_or L time = elim (truthy time) [ none ↦ "—" | some t ↦ L.date_time t ]

booking_row : Locale → BookingOut → Html
unfolding booking_status booking_style date_or
booking_row L b = el "TableRow" [] (
    el "TableCell" [] (say (slice_to 8 b.id) <+> say "…")
    <+> el "TableCell" [] (
        el "Badge" (("variant", "outline") ∷ ("className", booking_style b.status) ∷ [])
          (say (booking_status b.status)))
    <+> el "TableCell" [] (say (date_or L b.started_at))
    <+> el "TableCell" [] (say (date_or L b.ended_at))
    <+> el "TableCell" [] (
        el "Button" (("asChild", "true") ∷ ("size", "sm") ∷ ("variant", "ghost") ∷ [])
          (el "Link" (("href", "/dashboard/bookings/" <> b.id) ∷ []) (say "Open"))))

unfoldable pub bookings_view : Locale → List BookingOut → Html
unfolding booking_row
bookings_view L items = el "div" [] (
    el "header" [] (
      el "div" [] (el "p" [] (say "Consumer") <+> el "h1" [] (say "My bookings"))
      <+> el "Button" (("asChild", "true") ∷ ("variant", "outline") ∷ [])
          (el "Link" (("href", "/browse") ∷ []) (say "Browse offerings" <+> leaf "ArrowRight" [])))
    <+> (if eqb (length items) 0
        then el "div" [] (
            el "h2" [] (say "No bookings yet")
            <+> el "p" []
                (say "Find an idle Mac and hire it by the hour. Sandboxed agent, ready in seconds.")
            <+> el "Button" (("asChild", "true") ∷ [])
                (el "Link" (("href", "/browse") ∷ []) (say "Browse offerings")))
        else el "div" [] (
            el "Table" [] (
              el "TableHeader" [] (
                el "TableRow" [] (
                  el "TableHead" [] (say "Booking")
                  <+> el "TableHead" [] (say "Status")
                  <+> el "TableHead" [] (say "Started")
                  <+> el "TableHead" [] (say "Ended")
                  <+> leaf "TableHead" []))
              <+> el "TableBody" [] (each (booking_row L) (items))))))

unfoldable pub started_text : Locale → Option String → String
started_text L time = elim (truthy time) [
  | none ↦ "Not yet started"
  | some t ↦ "Started " <> L.date_time t
]

abbrev pub is_active : BookingStatus → Bool
is_active active = true
is_active _ = false

unfoldable pub kind_class : SettlementKind → String
kind_class settle = "text-settle"
kind_class opening = "text-accent-gold"
kind_class cancel = "text-muted-foreground"

settlement_row : String → LedgerEntry → Html
unfolding kind_class units format_usdc format_duration short_hash tx_url kind_chip
settlement_row explorer entry = el "li" [] (
    kind_chip entry.kind entry.status
    <+> el "span" (("className", kind_class entry.kind) ∷ [])
        (say (format_usdc (units entry.amount_usdc)))
    <+> el "span" [] (say (format_duration entry.usage_seconds))
    <+> for_some (truthy entry.tx_hash) (λ hash.
      el "a" (("href", tx_url explorer hash) ∷ ("target", "_blank") ∷ ("rel", "noreferrer") ∷ [])
        (say (short_hash (some hash) 6))))

unfoldable pub booking_detail_view : Locale → BookingOut → List MessageOut → LedgerOut → Html
unfolding booking_status booking_style started_text settlement_row chat_view opened
booking_detail_view L booking messages ledger = el "div" [] (
    el "header" [] (
      el "Link" (("href", "/dashboard/bookings") ∷ []) (leaf "ArrowLeft" [] <+> say "All bookings")
      <+> el "div" [] (
          el "div" [] (
            el "h1" []
              (say "Booking" <+> say " " <+> el "span" [] (say (slice_to 8 booking.id) <+> say "…"))
            <+> el "p" [] (say (started_text L booking.started_at)))
          <+> el "Badge" (("variant", "outline") ∷ ("className", booking_style booking.status) ∷ [])
              (say (booking_status booking.status))))
    <+> (if is_active booking.status
        then el "div" [] (chat_view (opened messages))
        else el "div" [] (
            el "p" [] (
              say
                "Chat is available once the booking is active. The supplier accepts and provisions a sandbox; you'll see the conversation here as soon as it's ready.")))
    <+> el "section" [] (
        el "p" [] (say "settlement")
        <+> (if ltb 0 (length ledger.items)
            then el "div" []
                (el "ul" [] (each (settlement_row ledger.chain.explorer_url) (ledger.items)))
            else el "p" [] (say "No on-chain settlement for this booking (off-chain rail)."))))

module _ (P : Platform) (env : Env) (L : Locale) where
  unfoldable pub bookings_page : Exec (State P) Html
  unfolding get request bookings_view
  bookings_page = do
    answer ← get P env P.as_bookings "/v1/bookings/me" unset
    items ← defined P answer
    pure (bookings_view L items)

  -- A booking that the API does not know is the not-found page.
  unfoldable pub unknown_is_missing : {A : Type 0} → Exception → Exec (State P) A
  unknown_is_missing (api_error status message) =
      if eqb status 404 then missing else raise (api_error status message)
  unknown_is_missing (error message) = raise (error message)
  unknown_is_missing thrown_value = raise thrown_value

  unfoldable pub booking_detail_page : Bool → String → Exec (State P) Html
  unfolding get request safe_get unknown_is_missing booking_detail_view empty_ledger
  booking_detail_page booking_first id = do
    loaded ← attempt (
        both booking_first (get P env P.as_booking ("/v1/bookings/" <> id) unset)
          (get P env P.as_messages ("/v1/bookings/" <> id <> "/messages") unset))
    elim loaded [
      | inl e ↦ unknown_is_missing e
      | inr (found, talk) ↦ do
        answer ←
            safe_get P env P.as_ledger ("/v1/ledger?booking_id=" <> id) empty_ledger (some true)
        booking ← defined P found
        messages ← if is_active booking.status then defined P talk else pure []
        ledger ← defined P answer
        pure (booking_detail_view L booking messages ledger)
    ]
