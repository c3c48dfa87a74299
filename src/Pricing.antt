-- ===== src/Pricing.antt =====
-- web/src/lib/pricing.ts: the commission, the tiers and the questions of the pricing page.
use claw_compute.Prelude.{ℕ, ◌-◌, String, Option, none, some, List, [], ◌∷◌, ◌<>◌, show}
pub mod Page
pub mod Laws

-- A label and where it leads.
pub record Cta : Type 0 where
  pub label : String
  pub href : String

pub record PricingTier : Type 0 where
  pub id : String
  pub name : String
  pub tagline : String
  pub headline : String
  pub highlight : Option String
  pub features : List String
  pub cta : Cta
  pub badge : Option String
  pub variant : String

abbrev pub commission_percent : ℕ
commission_percent = 15

abbrev pub supplier_keep_percent : ℕ
supplier_keep_percent = 100 - commission_percent

unfoldable pub pricing_tiers : List PricingTier
unfolding show
pricing_tiers =
    record {
      id = "hire";
      name = "Hire a worker";
      tagline = "For consumers";
      headline = "Pay per hour";
      highlight = some ("Supplier's listed rate");
      features =
          ("Hire any active offering by the hour")
          ∷ ("Sandboxed agent in a fresh microVM per booking")
          ∷ ("OpenAI-compatible chat endpoint")
          ∷ ("Cancel any time — billed to the second")
          ∷ ("Marketplace fee: " <> show commission_percent <> "% of session cost")
          ∷ [];
      cta = record { label = "Browse offerings"; href = "/browse" };
      badge = none;
      variant = "default";
    }
    ∷ record {
      id = "supply";
      name = "Become a supplier";
      tagline = "For Mac owners";
      headline = "Free to list";
      highlight = some ("Keep " <> show supplier_keep_percent <> "%");
      features =
          ("One-curl install, open-source worker binary")
          ∷ ("Set your hourly rate — change it whenever")
          ∷ (show supplier_keep_percent <> "% of consumer payment to you")
          ∷ ("Marketplace keeps " <> show commission_percent <> "% (covers settlement + ops)")
          ∷ ("Payouts via Stripe or USDC straight to your wallet, on-chain")
          ∷ [];
      cta = record {
        label = "Start earning";
        href = "/auth/login?next=/dashboard/become-supplier";
      };
      badge = some ("Most popular");
      variant = "highlight";
    }
    ∷ record {
      id = "value-add";
      name = "Marketplace value-add";
      tagline = "Coming v2";
      headline = "Add-on services";
      highlight = some ("Bundled with the bigger plans");
      features =
          ("Agent state migration across suppliers (S3-backed)")
          ∷ ("End-to-end encrypted chat (Noise / Signal-style)")
          ∷ ("Hardware-attested supplier identity (Apple MDA)")
          ∷ ("Priority routing for high-availability bookings")
          ∷ ("Dedicated support (email + Slack Connect)")
          ∷ [];
      cta = record { label = "Join the waitlist"; href = "/auth/login" };
      badge = none;
      variant = "muted";
    }
    ∷ []

unfoldable pub pricing_faq : List (String × String)
pricing_faq =
    (
      "How does payment actually flow?",
      "When a booking starts, the consumer's USDC is locked in on-chain escrow (card payments via Stripe are also supported). When the booking ends, escrow settles for actual usage: the marketplace withholds the 15% commission and the supplier receives the remaining 85% — as USDC to their payout wallet, or via Stripe Connect. Every on-chain settlement is visible on the public ledger.",
    )
    ∷ (
      "Can I run the worker on a MacBook that I'm also using?",
      "Yes. The worker only accepts bookings while it's running and has spare resources. You can pause / resume from the supplier dashboard at any time.",
    )
    ∷ (
      "What's the v1 vs v2 security story?",
      "v1 ships under a documented Trust-but-verify model: open-source, code-signed binary; outbound-only network; transparent audit logs. v2 layers on Apple Hardened Runtime + Secure Enclave attestation + E2E encrypted chat for stronger guarantees.",
    )
    ∷ (
      "What happens if my Mac goes offline mid-session?",
      "Active bookings auto-cancel after 5 minutes of missed heartbeats and the consumer is refunded for the unused portion. Your reputation score takes a small hit per drop — keep your machine plugged in for higher rankings.",
    )
    ∷ []
