-- ===== src/Marketing/Announcement.antt =====
-- web/src/components/marketing/AnnouncementBar.tsx: the bar above the home page, and its dismissal in
-- the browser's storage.
use claw_compute.Prelude.{String, ◌==◌, Bool, false, Option, none, some, [], ◌∷◌, if◌then◌else◌}
use claw_compute.Html.{Html, el, leaf, say, ◌<+>◌}

abbrev dismiss_key : String
dismiss_key = "claw.pricehike.dismissed"

abbrev why_url : String
why_url =
    "https://9to5mac.com/2026/06/17/apple-confirms-price-increases-are-coming-to-its-products-due-to-ram-shortage/"

-- `localStorage`
pub record Storage : Type 1 where
  pub Store : Type 0
  pub get_item : String → Store → Option String
  pub set_item : String → String → Store → Store

module _ (B : Storage) where
  unfoldable pub is_dismissed : B.Store → Bool
  is_dismissed store = elim (B.get_item dismiss_key store) [
    | none ↦ false
    | some value ↦ value == "1"
  ]

  unfoldable pub dismiss : B.Store → B.Store
  dismiss store = B.set_item dismiss_key "1" store

-- What the server renders has `dismissed` false.
unfoldable pub announcement_bar : Bool → Html
announcement_bar dismissed =
    if dismissed
    then []
    else el "div" [] (
        el "div" [] (
          el "span" [] (say "Jun 25 2026")
          <+> el "span" [] (
              say "Apple hiked Mac prices up to"
              <+> say " "
              <+> el "span" [] (say "$300")
              <+> say " "
              <+> el "span" [] (say "(Mac Studio $3,999\u{2009}→\u{2009}$5,299)")
              <+> say " "
              <+> say "— rent capacity, don't buy.")
          <+> el "Link"
              (("href", why_url) ∷ ("target", "_blank") ∷ ("rel", "noopener noreferrer") ∷ [])
              (say "why?"))
        <+> el "button" (("type", "button") ∷ []) (leaf "X" []))
