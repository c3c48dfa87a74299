-- ===== src/Ledger/Table.antt =====
-- web/src/components/ledger/LedgerTable.tsx: the public table of settlements.
use claw_compute.Prelude.{
  ℕ, String, Bool, true, false, not, ◌&&◌, Option, none, some, List, [], ◌∷◌, eqb, if◌then◌else◌,
}
use claw_compute.Prelude.Int.{ℤ, pos, sub_ℕ}
use claw_compute.ApiTypes.{
  LedgerEntry, ChainInfo, SettlementKind, opening, SettlementStatus, confirmed, failed,
}
use claw_compute.Html.{Html, el, leaf, say, when, for_some, or_else, each, ◌<+>◌}
use claw_compute.Session.{truthy, default_to}
use claw_compute.Usdc.{format_usdc, format_duration, short_hash, tx_url}
use claw_compute.Locale.{Locale, price}
use claw_compute.Ledger.Chip.{kind_chip}

abbrev pub is_opening : SettlementKind → Bool
is_opening opening = true
is_opening _ = false

abbrev pub is_failed : SettlementStatus → Bool
is_failed failed = true
is_failed confirmed = false

unfoldable pub units : Option ℕ → Option ℤ
units none = none
units (some n) = some (pos n)

-- `failed && e.error`
unfoldable pub error_of : LedgerEntry → Option String
error_of e = if is_failed e.status then truthy e.error else none

unfoldable pub amount_class : SettlementKind → SettlementStatus → String
amount_class kind failed = "text-muted-foreground line-through"
amount_class opening confirmed = "text-accent-gold"
amount_class _ confirmed = "text-settle"

unfoldable pub th : Html → Html
th children = el "th" [] (children)

unfoldable pub split_parts : Locale → ℕ → ℕ → Html
unfolding format_usdc
split_parts L amount commission = el "div" [] (
    el "div" [] (
      leaf "div" (("style", L.percent_width (sub_ℕ amount commission) amount) ∷ [])
      <+> leaf "div" [])
    <+> el "div" [] (
        el "span" [] (say (format_usdc (some (sub_ℕ amount commission))))
        <+> el "span" (("title", "marketplace commission") ∷ [])
            (say (format_usdc (some (pos commission))))))

dash : Html
dash = el "span" [] (say "—")

abbrev split_amounts : Locale → Option ℕ → Option ℕ → Html
split_amounts L none commission = dash
split_amounts L (some amount) none = dash
split_amounts L (some amount) (some commission) =
    if eqb amount 0 then dash else split_parts L amount commission

unfoldable pub split_bar : Locale → LedgerEntry → Html
unfolding split_parts dash
split_bar L e =
    if is_opening e.kind
    then dash
    else if is_failed e.status
    then dash
    else split_amounts L e.amount_usdc e.commission_usdc

unfoldable pub row : Locale → LedgerEntry → String → Html
unfolding split_bar kind_chip price amount_class error_of units format_usdc format_duration
    short_hash tx_url
row L e explorer =
    el "tr"
      (("className", if is_failed e.status then "bg-[rgb(var(--crimson))]/[0.04]" else "") ∷ [])
      (el "td" [] (el "time" (("dateTime", e.created_at) ∷ []) (say (L.short_date e.created_at)))
        <+> el "td" [] (
            kind_chip e.kind e.status
            <+> for_some (error_of e) (λ message. el "p" (("title", message) ∷ []) (say message)))
        <+> el "td" [] (
            el "div" [] (say (default_to "—" e.offering_title))
            <+> el "div" [] (
                say (default_to "unknown supplier" e.supplier_name)
                <+> for_some (e.rate_per_hour_cents)
                    (λ rate. el "span" [] (say " · $" <+> say (price rate) <+> say "/hr"))))
        <+> el "td" []
            ((if is_opening e.kind then say "—" else say (format_duration e.usage_seconds)))
        <+> el "td" [] (
            el "span" (("className", amount_class e.kind e.status) ∷ [])
              (say (format_usdc (units e.amount_usdc)))
            <+> when (is_opening e.kind && not (is_failed e.status)) (el "div" [] (say "locked")))
        <+> el "td" [] (split_bar L e)
        <+> el "td" [] (
            or_else (truthy e.tx_hash)
              (λ hash.
                el "a"
                  (("href", tx_url explorer hash)
                    ∷ ("target", "_blank")
                    ∷ ("rel", "noopener noreferrer")
                    ∷ [])
                  (say (short_hash (some hash) 6) <+> leaf "ArrowUpRight" []))
              (el "span" [] (say "—"))))

unfoldable pub ledger_table : Locale → List LedgerEntry → ChainInfo → Html
unfolding row th
ledger_table L entries chain = el "div" [] (
    el "div" [] (
      el "table" [] (
        el "thead" [] (
          el "tr" [] (
            th (say "Time")
            <+> th (say "Event")
            <+> th (say "Booking")
            <+> th (say "Usage")
            <+> th (say "Amount")
            <+> th (say "Split")
            <+> th (say "Tx")))
        <+> el "tbody" [] (each (λ e. row L e chain.explorer_url) (entries)))))
