-- ===== src/Marketing/Supplier.antt =====
-- web/src/components/marketing/SupplierCTA.tsx: the invitation to suppliers. `copied` is its state.
use claw_compute.Prelude.{String, Bool, [], ◌∷◌, if◌then◌else◌}
use claw_compute.Html.{Html, el, leaf, say, ◌<+>◌}

abbrev install : String
install = "curl -fsSL https://api.claw.dev/install.sh | bash"

unfoldable pub stat : Html → String → String → Html
stat icon title sub =
    el "div" []
      (el "div" [] (icon) <+> el "div" [] (el "div" [] (say title) <+> el "div" [] (say sub)))

unfoldable pub supplier_cta : Bool → Html
unfolding stat
supplier_cta copied = el "section" [] (
    el "div" [] (leaf "div" [])
    <+> el "div" [] (
        el "div" [] (leaf "Terminal" [] <+> say " One command")
        <+> el "h2" [] (
            el "span" [] (say "Got an idle Mac?")
            <+> leaf "br" []
            <+> say "Put the "
            <+> el "span" [] (say "claw to work")
            <+> say ".")
        <+> el "p" [] (
            say
              "Run one curl, set your hourly rate, get paid when consumers hire your machine. Pause any time. Earn USDC straight to your payout wallet — 85% of every hour, settled on-chain.")
        <+> el "div" [] (
            leaf "div" []
            <+> el "pre" [] (el "span" [] (say "$") <+> el "code" [] (say install))
            <+> el "button" (("type", "button") ∷ [])
                ((if copied then leaf "Check" [] else leaf "Copy" [])))
        <+> el "div" [] (
            stat (leaf "Coins" []) "$1.80 / hr" "avg M3 Max billing"
            <+> stat (leaf "TrendingUp" []) "$430 / mo" "@ 60% utilization"
            <+> stat (leaf "Power" []) "85% kept" "flat 15% to platform")
        <+> el "div" [] (
            el "Button" (("asChild", "true") ∷ ("size", "lg") ∷ []) (
              el "Link" (("href", "/auth/login?next=/dashboard/become-supplier") ∷ [])
                (say "Get started"))
            <+> el "Button" (("asChild", "true") ∷ ("size", "lg") ∷ ("variant", "ghost") ∷ [])
                (el "Link" (("href", "/pricing") ∷ []) (say "See pricing")))
        <+> el "div" [] (
            leaf "Image" (("src", "/openclaw.svg") ∷ [])
            <+> el "span" [] (el "span" [] (say "claw // ") <+> say "ready when you are"))))
