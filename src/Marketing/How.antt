-- ===== src/Marketing/How.antt =====
-- web/src/components/marketing/HowItWorks.tsx: the four steps of the home page.
use claw_compute.Prelude.{String, List, [], ◌∷◌}
use claw_compute.Html.{Html, el, leaf, say, each, ◌<+>◌}

pub record Step : Type 0 where
  pub n : String
  pub icon : Html
  pub title : String
  pub body : String

abbrev pub steps : List Step
steps =
    record {
      n = "01";
      icon = leaf "Server" [];
      title = "A Mac plugs in";
      body =
          "Supplier runs one curl. The worker binary fingerprints the chip, registers with the marketplace, and starts heartbeating every 30s.";
    }
    ∷ record {
      n = "02";
      icon = leaf "ArrowDown" [];
      title = "A consumer hires it";
      body =
          "Pick an offering on /browse, set duration, confirm. USDC for the session locks in on-chain escrow and the worker is notified over an outbound WebSocket.";
    }
    ∷ record {
      n = "03";
      icon = leaf "Zap" [];
      title = "The sandbox spins up";
      body =
          "Worker spins up a fresh microVM (or Lima fallback on macOS 14/15). MLX preloads the model. Latency from booking to ready ≈ 0.8s.";
    }
    ∷ record {
      n = "04";
      icon = leaf "MessageSquare" [];
      title = "Chat or call the API";
      body =
          "Stream tokens through the relay or POST to /v1/chat/completions. When the booking ends, escrow settles on-chain for actual usage and the sandbox tears down clean.";
    }
    ∷ []

abbrev pub promises : List String
promises =
    "hardened-runtime signed" ∷ "0 inbound ports" ∷ "open-source worker" ∷ "documented threat model"
    ∷ "USDC settlement on-chain" ∷ []

unfoldable pub step : Step → Html
step s = el "li" [] (
    el "div" [] (el "span" [] (s.icon) <+> el "span" [] (say "step " <+> say s.n))
    <+> el "h3" [] (say s.title)
    <+> el "p" [] (say s.body)
    <+> leaf "Image" (("src", "/openclaw.svg") ∷ []))

unfoldable pub how_it_works : Html
unfolding step
how_it_works = el "section" (("id", "how") ∷ []) (
    el "header" [] (
      el "p" [] (say "How it works")
      <+> el "h2" [] (
          el "span" []
            (say "From " <+> el "em" [] (say "curl") <+> say " to prompt in four moves.")))
    <+> el "ol" [] (leaf "div" [] <+> each (λ s. step s) (steps))
    <+> leaf "div" []
    <+> el "div" [] (each (λ t. el "span" [] (leaf "span" [] <+> say t)) (promises)))
