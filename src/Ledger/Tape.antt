-- ===== src/Ledger/Tape.antt =====
-- web/src/components/ledger/SettlementTape.tsx: the strip of settlements on the home page.
use claw_compute.Prelude.{
  String, Bool, false, not, ◌&&◌, Option, none, some, List, [], ◌∷◌, ◌++◌, eqb, ltb, length, filter,
  if◌then◌else◌, ℕ,
}
use claw_compute.ApiTypes.{LedgerEntry, LedgerOut}
use claw_compute.Html.{Html, el, leaf, say, each, ◌<+>◌}
use claw_compute.Session.{default_to}
use claw_compute.Usdc.{format_usdc, format_duration}
use claw_compute.Ledger.Table.{units, is_opening, is_failed}

-- `e.amount_usdc` as a test.
abbrev has_amount : Option ℕ → Bool
has_amount none = false
has_amount (some n) = not (eqb n 0)

unfoldable pub on_tape : LedgerEntry → Bool
on_tape e = not (is_failed e.status) && (not (is_opening e.kind) && has_amount e.amount_usdc)

unfoldable pub tape_row : List LedgerEntry → Html
unfolding units format_usdc format_duration
tape_row entries = el "div" [] (
    each
      (λ e. el "span" [] (
        el "span" [] (say (format_usdc (units e.amount_usdc)))
        <+> el "span" [] (
            say (default_to "booking" e.offering_title)
            <+> say " · "
            <+> say (format_duration e.usage_seconds))
        <+> leaf "span" []))
      (entries))

facts : List String
facts =
    "USDC escrow locked at booking start" ∷ "settled for actual usage, on-chain"
    ∷ "85% to suppliers · 15% commission" ∷ "withdraw unused escrow anytime"
    ∷ "public record — every tx linked" ∷ []

unfoldable pub facts_row : Html
unfolding facts
facts_row = el "div" [] (each (λ f. el "span" [] (say f <+> leaf "span" [])) (facts ++ facts))

unfoldable pub tape : List LedgerEntry → Html
unfolding tape_row facts_row
tape settled = el "div" [] (
    el "div" [] (
      el "Link" (("href", "/ledger") ∷ [])
        (leaf "span" [] <+> say "settlement ledger" <+> leaf "ArrowUpRight" [])
      <+> el "div" []
          ((if ltb 0 (length settled) then tape_row (settled ++ settled) else facts_row))))

unfoldable pub settlement_tape : LedgerOut → Html
unfolding tape on_tape
settlement_tape ledger = tape (filter on_tape ledger.items)
