-- ===== src/Dashboard/Bookings/Laws.antt =====
-- What a consumer's booking pages offer (web/src/app/dashboard/bookings).
use mathlib.Core.List.{append-nil}
use claw_compute.Prelude.{
  suc, ap, ◌∙◌, refl, String, Bool, ◌≡◌, true, false, Option, List, [], ◌∷◌, arith, if◌then◌else◌,
  map, ◌<>◌, ltb, length, eqb,
}
use claw_compute.ApiTypes.{
  BookingOut, MessageOut, LedgerEntry, LedgerOut, SettlementKind, SettlementStatus,
}
use claw_compute.Session.{truthy}
use claw_compute.Html.{el, say, for_some, links, values, each, values-append}
use claw_compute.Locale.{Locale}
use claw_compute.Chat.{Chat, opened}
use claw_compute.Chat.View.{bubble, chat_view}
use claw_compute.Ledger.Chip.{kind_chip}
use claw_compute.Dashboard.Bookings.{
  booking_row, settlement_row, is_active, bookings_view, booking_detail_view,
}

links-rows :
    (L : Locale) (bs : List BookingOut)
    → links (each (booking_row L) bs) ≡ map (λ (b : BookingOut). "/dashboard/bookings/" <> b.id) bs
unfolding booking_row
links-rows L [] = refl
links-rows L (b ∷ bs) = ap (λ l. ("/dashboard/bookings/" <> b.id) ∷ l) (links-rows L bs)

some_left : (more : List BookingOut) → eqb (suc (length more)) 0 ≡ false
some_left more = ground arith

-- The list leads to each booking's own page, in order, after the link to the catalogue; with no booking
-- it leads to the catalogue only.
links-bookings_view :
    (L : Locale) (bs : List BookingOut)
    → links (bookings_view L bs)
      ≡ "/browse"
        ∷ (if eqb (length bs) 0
            then "/browse" ∷ []
            else map (λ (b : BookingOut). "/dashboard/bookings/" <> b.id) bs)
unfolding bookings_view
links-bookings_view L [] = refl
links-bookings_view L (b ∷ more) =
    rw (some_left more)
      (ap (λ l. "/browse" ∷ l) (simp (values-append, append-nil) (links-rows L (b ∷ more))))

names-bubble : (m : MessageOut) → values "name" (bubble m) ≡ []
unfolding bubble
names-bubble m = ground arith

names-bubbles : (ms : List MessageOut) → values "name" (each (λ m. bubble m) ms) ≡ []
names-bubbles [] = refl
names-bubbles (m ∷ ms) =
    values-append "name" (bubble m) (each (λ m. bubble m) ms)
    ∙ (rw (names-bubble m) (names-bubbles ms))

names-kind_chip : (k : SettlementKind) (s : SettlementStatus) → values "name" (kind_chip k s) ≡ []
unfolding kind_chip
names-kind_chip k s = ground arith

names-messages :
    (b : Bool) (ms : List MessageOut)
    → values "name" (
        if b
        then el "div" []
            (el "p" [] (say "Send the first message — the agent is waiting on the supplier's Mac."))
        else el "ul" [] (each (λ m. bubble m) ms))
      ≡ []
names-messages true ms = refl
names-messages false ms =
    rw (values-append "name" (each (λ m. bubble m) ms)) (rw (names-bubbles ms) refl)

names-error :
    (e : Option String)
    → values "name" (
        for_some (truthy e) (λ message.
          el "Alert" (("variant", "destructive") ∷ []) (el "AlertDescription" [] (say message))))
      ≡ []
names-error e = ground arith

names-chat_view : (chat : Chat) → values "name" (chat_view chat) ≡ "content" ∷ []
unfolding chat_view
names-chat_view chat = simp (
  values-append,
  names-messages (eqb (length chat.messages) 0) chat.messages,
  names-error chat.error,
)

names-settlement_row :
    (explorer : String) (e : LedgerEntry) → values "name" (settlement_row explorer e) ≡ []
unfolding settlement_row
names-settlement_row explorer e = simp (values-append, names-kind_chip) (ground arith)

names-settlements :
    (explorer : String) (es : List LedgerEntry)
    → values "name" (each (settlement_row explorer) es) ≡ []
names-settlements explorer [] = refl
names-settlements explorer (e ∷ es) =
    values-append "name" (settlement_row explorer e) (each (settlement_row explorer) es)
    ∙ (rw (names-settlement_row explorer e) (names-settlements explorer es))

names-section :
    (b : Bool) (explorer : String) (es : List LedgerEntry)
    → values "name" (
        if b
        then el "div" [] (el "ul" [] (each (settlement_row explorer) es))
        else el "p" [] (say "No on-chain settlement for this booking (off-chain rail)."))
      ≡ []
names-section true explorer es = simp (values-append, names-settlements explorer es)
names-section false explorer es = refl

names-chat :
    (b : Bool) (chat : Chat)
    → values "name" (
        if b
        then el "div" [] (chat_view chat)
        else el "div" [] (
            el "p" [] (
              say
                "Chat is available once the booking is active. The supplier accepts and provisions a sandbox; you'll see the conversation here as soon as it's ready.")))
      ≡ (if b then "content" ∷ [] else [])
names-chat true chat = rw (values-append "name" (chat_view chat)) (rw (names-chat_view chat) refl)
names-chat false chat = refl

-- A booking's page has one form field, the message's, while the booking is active, and else none.
names-booking_detail_view :
    (L : Locale) (b : BookingOut) (messages : List MessageOut) (ledger : LedgerOut)
    → values "name" (booking_detail_view L b messages ledger)
      ≡ (if is_active b.status then "content" ∷ [] else [])
unfolding booking_detail_view
names-booking_detail_view L b messages ledger = simp (
  booking_detail_view,
  values-append,
  names-chat (is_active b.status) (opened messages),
  names-section (ltb 0 (length ledger.items)) ledger.chain.explorer_url ledger.items,
  append-nil,
)
