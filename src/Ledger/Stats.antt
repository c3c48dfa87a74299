-- ===== src/Ledger/Stats.antt =====
-- web/src/components/ledger/LedgerStats.tsx: the four totals of the ledger page. Every tile gets a
-- hint; a tile's tone is the class of its value.
use claw_compute.Prelude.{not, is_empty, ℕ, String, some, [], ◌∷◌, ◌<>◌, show, eqb, if◌then◌else◌}
use claw_compute.Prelude.Int.{pos, sub_ℕ}
use claw_compute.ApiTypes.{LedgerStats}
use claw_compute.Html.{Html, el, say, when, ◌<+>◌}
use claw_compute.Usdc.{format_usdc}

unfoldable pub tile : String → String → String → String → Html
tile label value hint tone = el "div" [] (
    el "div" [] (say label)
    <+> el "div" (("className", tone) ∷ []) (say value)
    <+> when (not (is_empty hint)) (el "div" [] (say (hint))))

-- A count and its noun, with an "s" unless it is one.
unfoldable pub counted : ℕ → String → String
unfolding show
counted n noun = show n <> noun <> (if eqb n 1 then "" else "s")

unfoldable pub ledger_stats : LedgerStats → Html
unfolding tile counted format_usdc
ledger_stats stats = el "div" [] (
    tile "Settled to suppliers"
      (format_usdc (some (sub_ℕ stats.settled_volume_usdc stats.commission_usdc)))
      (counted stats.settlements " settlement") "text-settle"
    <+> tile "Locked in escrow" (format_usdc (some (pos stats.locked_volume_usdc)))
        (counted stats.open_bookings " open booking") "text-accent-gold"
    <+> tile "Marketplace commission" (format_usdc (some (pos stats.commission_usdc))) "to treasury"
        "text-foreground"
    <+> tile "Total settled volume" (format_usdc (some (pos stats.settled_volume_usdc))) "all time"
        "text-foreground")
