-- ===== src/Pricing/Page.antt =====
-- web/src/app/pricing/page.tsx: the pricing page.
use claw_compute.Prelude.{ℕ, ◌-◌, String, ◌==◌, Bool, [], ◌∷◌, ◌<>◌, show, if◌then◌else◌}
use claw_compute.Html.{Html, el, leaf, say, when, for_some, each, ◌<+>◌}
use claw_compute.Site.Frame.{site_header, site_footer}
use claw_compute.Pricing.{PricingTier, commission_percent, pricing_tiers, pricing_faq}

abbrev is_highlight : String → Bool
is_highlight variant = variant == "highlight"

abbrev is_muted : String → Bool
is_muted variant = variant == "muted"

-- The parts of the class that depend on the tier.
abbrev card_class : String → String
card_class variant =
    (if is_highlight variant
      then "border-[rgb(var(--crimson))]/35 shadow-lg"
      else "border-white/10")
    <> (if is_muted variant then " opacity-95" else "")

abbrev feature_class : String → String
feature_class variant = if is_muted variant then "text-muted-foreground" else ""

abbrev button_variant : String → String
button_variant variant =
    if is_highlight variant then "default" else if is_muted variant then "outline" else "default"

unfoldable pub hero : Html
unfolding show
hero = el "section" [] (
    el "div" [] (leaf "div" [])
    <+> el "div" [] (
        el "p" [] (say "Pricing")
        <+> el "h1" [] (
            say "Simple. Transparent. "
            <+> say (show (100 - commission_percent))
            <+> say "/"
            <+> say (show commission_percent)
            <+> say ".")
        <+> el "p" [] (
            say "Suppliers keep "
            <+> say (show (100 - commission_percent))
            <+> say "% of every dollar. The marketplace takes a flat "
            <+> say (show commission_percent)
            <+> say
                "% to cover settlement, attestation infra, and ops. Payouts land via Stripe or as USDC on-chain — every settlement is public on"
            <+> say " "
            <+> el "Link" (("href", "/ledger") ∷ []) (say "the ledger")
            <+> say ". No tiers, no upsells, no monthly subscription.")))

unfoldable pub tier_card : PricingTier → Html
tier_card tier = el "div" (("className", card_class tier.variant) ∷ []) (
    when (is_highlight tier.variant) (leaf "div" [])
    <+> for_some (tier.badge) (λ badge. el "span" [] (leaf "Sparkles" [] <+> say " " <+> say badge))
    <+> el "div" [] (el "p" [] (say tier.tagline) <+> el "h3" [] (say tier.name))
    <+> el "div" [] (
        el "div" [] (el "span" [] (say tier.headline))
        <+> for_some (tier.highlight) (λ highlight. el "p" [] (say highlight)))
    <+> el "ul" [] (
        each
          (λ feat. el "li" [] (
            leaf "Check" []
            <+> el "span" (("className", feature_class tier.variant) ∷ []) (say feat)))
          (tier.features))
    <+> el "Button"
        (("asChild", "true") ∷ ("size", "lg") ∷ ("variant", button_variant tier.variant) ∷ [])
        (el "Link" (("href", tier.cta.href) ∷ []) (say tier.cta.label)))

unfoldable pub tiers : Html
unfolding tier_card pricing_tiers
tiers = el "section" [] (el "div" [] (each (λ tier. tier_card tier) (pricing_tiers)))

unfoldable pub faq : Html
unfolding pricing_faq
faq = el "section" [] (
    el "h2" [] (say "Common questions")
    <+> el "dl" []
        (each (λ (q, a). el "div" [] (el "dt" [] (say q) <+> el "dd" [] (say a))) (pricing_faq)))

unfoldable pub pricing_page : ℕ → Html
unfolding hero tiers faq site_header site_footer
pricing_page year = site_header <+> el "main" [] (hero <+> tiers <+> faq) <+> site_footer year
