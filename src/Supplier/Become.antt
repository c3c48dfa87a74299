-- ===== src/Supplier/Become.antt =====
-- web/src/app/dashboard/become-supplier/page.tsx: the page that makes a supplier account.
use claw_compute.Prelude.{String, Bool, Option, [], ◌∷◌, if◌then◌else◌}
use claw_compute.Forms.{FormState}
use claw_compute.Html.{Html, el, leaf, say, for_some, flag, ◌<+>◌}
use claw_compute.Wallet.Page.{shown_error}

unfoldable pub supplier_submit : Bool → Html
supplier_submit pending =
    el "Button" (("type", "submit") ∷ ("disabled", flag pending) ∷ ("size", "lg") ∷ [])
      (say (if pending then "Creating account…" else "Create supplier account"))

unfoldable pub perk : String → String → Html → Html
perk icon title children =
    el "li" []
      (el "span" [] (leaf icon []) <+> el "div" [] (el "p" [] (say title) <+> el "p" [] (children)))

unfoldable pub become_supplier_page : Option FormState → Bool → Html
unfolding supplier_submit perk
become_supplier_page state pending = el "div" [] (
    el "section" [] (
      el "p" [] (say "Get started")
      <+> el "h1" [] (say "Turn idle compute into income.")
      <+> el "p" [] (
          say
            "Set your display name and payout email. After this, you'll get an install command to drop on your Mac and you can list your first offering.")
      <+> el "ul" [] (
          perk "Coins" "Keep 88%"
            (say "Marketplace takes a flat 12%. No tiered fees, no monthly subscription.")
          <+> perk "Zap" "Three-minute setup" (
              say
                "One curl command installs the worker. Register with a token from the dashboard. Done.")
          <+> perk "ShieldCheck" "Open-source worker"
              (say "Audit every line on GitHub before running it on your hardware.")))
    <+> el "aside" [] (
        el "h2" [] (say "Account details")
        <+> el "p" [] (say "You can change these later in your supplier settings.")
        <+> el "form" (("action", "becomeSupplier") ∷ []) (
            el "div" [] (
              el "Label" (("htmlFor", "display_name") ∷ []) (say "Display name")
              <+> leaf "Input" (
                  ("id", "display_name")
                  ∷ ("name", "display_name")
                  ∷ ("required", "true")
                  ∷ ("maxLength", "120")
                  ∷ ("placeholder", "Acme GPUs")
                  ∷ [])
              <+> el "p" [] (say "Shown to consumers on your offerings."))
            <+> el "div" [] (
                el "Label" (("htmlFor", "payout_email") ∷ []) (say "Payout email")
                <+> leaf "Input" (
                    ("id", "payout_email")
                    ∷ ("name", "payout_email")
                    ∷ ("type", "email")
                    ∷ ("required", "true")
                    ∷ ("placeholder", "payouts@acme.com")
                    ∷ [])
                <+> el "p" [] (say "We'll use this to set up your Stripe Connect account in v1.5."))
            <+> for_some (shown_error state) (λ message.
              el "Alert" (("variant", "destructive") ∷ []) (el "AlertDescription" [] (say message)))
            <+> supplier_submit pending)))
