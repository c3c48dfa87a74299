-- ===== src/Ledger/Page.antt =====
-- web/src/app/ledger/page.tsx: the public ledger.
use claw_compute.Prelude.{ℕ, String, none, [], ltb, length, show, if◌then◌else◌}
use claw_compute.Exec.{Exec, ◌>>=◌, pure}
use claw_compute.ApiTypes.{LedgerOut}
use claw_compute.Platform.{Platform, Env, State}
use claw_compute.Api.{defined}
use claw_compute.SafeApi.{safe_get}
use claw_compute.Usdc.{empty_ledger}
use claw_compute.Locale.{Locale}
use claw_compute.Html.{Html, el, leaf, say, when, ◌<+>◌}
use claw_compute.Site.Frame.{site_header, site_footer}
use claw_compute.Ledger.Stats.{ledger_stats}
use claw_compute.Ledger.Chain.{chain_card}
use claw_compute.Ledger.Table.{ledger_table}

unfoldable pub step : String → String → String → Html
step icon title body =
    el "div" [] (el "div" [] (leaf icon [] <+> say title) <+> el "p" [] (say body))

unfoldable pub empty_ledger_note : Html
unfolding step
empty_ledger_note = el "div" [] (
    el "p" [] (say "No settlements yet")
    <+> el "p" [] (
        say "The first booking to run on the USDC rail will appear here — lock, usage, and payout.")
    <+> el "div" [] (
        step "Lock" "Lock"
          "Booking goes active — the worst-case cost is reserved from the consumer's escrow."
        <+> step "Timer" "Use"
            "The Mac runs the agent. Usage is metered off started/ended timestamps."
        <+> step "Coins" "Settle"
            "Actual usage is charged, the split pays out, the rest unlocks instantly."))

unfoldable pub ledger_view : Locale → ℕ → LedgerOut → Html
unfolding site_header site_footer ledger_stats chain_card ledger_table empty_ledger_note show
ledger_view L year ledger =
    site_header
    <+> el "main" [] (
        el "div" [] (
          el "div" [] (say "Public record")
          <+> el "h1" [] (say "Every hour, on the record.")
          <+> el "p" [] (
              say
                "When a booking starts, the consumer's USDC is locked in the ClawEscrow contract. When it ends, the machine's actual usage is settled on-chain — supplier payout, marketplace commission, and every transaction hash below. No invoices to trust; a ledger to check."))
        <+> el "div" [] (ledger_stats ledger.stats <+> chain_card L ledger.chain)
        <+> el "div" [] (
            (if ltb 0 (length ledger.items)
              then ledger_table L ledger.items ledger.chain
              else empty_ledger_note))
        <+> when (ltb (length ledger.items) ledger.total) (
            el "p" [] (
              say "showing "
              <+> say (show (length ledger.items))
              <+> say " of "
              <+> say (show ledger.total)
              <+> say " settlements")))
    <+> site_footer year

module _ (P : Platform) (env : Env) (L : Locale) (year : ℕ) where
  unfoldable pub ledger_page : Exec (State P) Html
  unfolding safe_get empty_ledger ledger_view
  ledger_page = do
    answer ← safe_get P env P.as_ledger "/v1/ledger?limit=100" empty_ledger none
    ledger ← defined P answer
    pure (ledger_view L year ledger)
