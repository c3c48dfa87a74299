-- ===== src/Marketing/Hero.antt =====
-- web/src/components/marketing/Hero.tsx: the first section of the home page, with figures of the
-- public ledger.
use claw_compute.Prelude.{String, Option, none, some, [], ◌∷◌, show}
use claw_compute.Prelude.Int.{ℤ, pos, sub_ℕ}
use claw_compute.Html.{Html, el, leaf, say, ◌<+>◌}
use claw_compute.ApiTypes.{LedgerOut}
use claw_compute.Usdc.{format_usdc}

pub data Tone : Type 0 where
  gold settle : Tone

abbrev metric_color : Option Tone → String
metric_color (some gold) = "text-accent-gold"
metric_color (some settle) = "text-settle"
metric_color none = "text-foreground"

abbrev pub supplier_paid : LedgerOut → ℤ
supplier_paid ledger = sub_ℕ ledger.stats.settled_volume_usdc ledger.stats.commission_usdc

unfoldable pub metric : String → String → Option Tone → Html
metric label value tone =
    el "div" []
      (el "div" (("className", metric_color tone) ∷ []) (say value) <+> el "div" [] (say label))

unfoldable pub console : LedgerOut → Html
unfolding metric format_usdc show
console ledger = el "div" [] (
    leaf "div" []
    <+> el "div" [] (
        el "div" []
          (el "span" [] (say "claw // console") <+> el "span" [] (leaf "span" [] <+> say "healthy"))
        <+> el "div" [] (
            leaf "div" []
            <+> leaf "div" []
            <+> el "div" [] (leaf "Image" (("src", "/openclaw.svg") ∷ []))
            <+> el "div" [] (say "M3 Max · 64 GB · 130 tok/s"))
        <+> el "div" [] (
            metric "paid to suppliers" (format_usdc (some (supplier_paid ledger))) (some settle)
            <+> metric "locked in escrow" (format_usdc (some (pos ledger.stats.locked_volume_usdc)))
                (some gold)
            <+> metric "settlements" (show ledger.stats.settlements) none)))

unfoldable pub hero : LedgerOut → Html
unfolding console
hero ledger = el "section" [] (
    el "div" [] (leaf "div" [])
    <+> el "div" [] (
        el "div" [] (
          el "div" [] (
            el "span" [] (leaf "span" [] <+> leaf "span" [])
            <+> say "Private beta · USDC settlement on Arc")
          <+> el "h1" [] (
              el "span" [] (say "Idle Apple Silicon,")
              <+> leaf "br" []
              <+> el "span" [] (say "hired by the hour")
              <+> say ".")
          <+> el "p" [] (
              say
                "Macs just got expensive. Run sandboxed AI agents on rented Apple Silicon for cents an hour — or host your own Mac and earn USDC. Every booking locks escrow at the start and settles on-chain for the hours actually used, on a public ledger.")
          <+> el "div" [] (
              el "Button" (("asChild", "true") ∷ ("size", "lg") ∷ []) (
                el "Link" (("href", "/browse") ∷ [])
                  (say "Browse machines" <+> leaf "ArrowRight" []))
              <+> el "Button" (("asChild", "true") ∷ ("size", "lg") ∷ ("variant", "outline") ∷ []) (
                  el "Link" (("href", "/download") ∷ [])
                    (say "Download worker" <+> leaf "Download" [])))
          <+> el "div" [] (
              el "span" [] (leaf "Cpu" [] <+> say " MLX-native")
              <+> el "span" [] (leaf "Zap" [] <+> say " 0.8s sandbox")
              <+> el "span" [] (leaf "Shield" [] <+> say " 0 inbound ports")))
        <+> console ledger))
