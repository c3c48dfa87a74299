-- ===== src/Marketing/Page.antt =====
-- web/src/app/page.tsx: the home page as the server renders it.
use claw_compute.Prelude.{ℕ, false, none, []}
use claw_compute.Exec.{Exec, pure, ◌>>=◌}
use claw_compute.Platform.{Platform, Env, State}
use claw_compute.ApiTypes.{LedgerOut}
use claw_compute.Api.{defined}
use claw_compute.SafeApi.{safe_get}
use claw_compute.Html.{Html, el, ◌<+>◌}
use claw_compute.Site.Frame.{site_header, site_footer}
use claw_compute.Ledger.Tape.{settlement_tape}
use claw_compute.Usdc.{empty_ledger}
use claw_compute.Marketing.Announcement.{announcement_bar}
use claw_compute.Marketing.Hero.{hero}
use claw_compute.Marketing.Offerings.{offerings}
use claw_compute.Marketing.How.{how_it_works}
use claw_compute.Marketing.Supplier.{supplier_cta}

module _ (year : ℕ) where
  unfoldable pub marketing_view : LedgerOut → Html
  unfolding offerings announcement_bar site_header hero settlement_tape how_it_works supplier_cta
      site_footer
  marketing_view ledger =
      announcement_bar false
      <+> site_header
      <+> el "main" [] (
          hero ledger
          <+> settlement_tape ledger
          <+> offerings
          <+> how_it_works
          <+> supplier_cta false)
      <+> site_footer year

module _ (P : Platform) (env : Env) (year : ℕ) where
  unfoldable pub home_page : Exec (State P) Html
  unfolding safe_get empty_ledger marketing_view
  home_page = do
    answer ← safe_get P env P.as_ledger "/v1/ledger?limit=20" empty_ledger none
    ledger ← defined P answer
    pure (marketing_view year ledger)
