-- ===== src/Marketing/Offerings.antt =====
-- web/src/components/marketing/Offerings.tsx: the three kinds of offering on the home page. The widths
-- of the bars are left out.
use claw_compute.Prelude.{ℕ, String, Bool, true, false, List, [], ◌∷◌, show, if◌then◌else◌}
use claw_compute.Html.{Html, el, leaf, say, each, ◌<+>◌}

abbrev card : Bool → Html → Html
card muted children =
    el "article" (("className", if muted then "opacity-95" else "") ∷ [])
      (leaf "Image" (("src", "/openclaw.svg") ∷ []) <+> children)

abbrev header : String → String → String → Html → Html
header kicker title tagline icon = el "div" [] (
    el "p" [] (say kicker)
    <+> el "div" [] (el "span" [] (icon) <+> el "h3" [] (say title))
    <+> el "p" [] (say tagline))

abbrev bullet : Html → Html → Html
bullet icon children = el "li" [] (el "span" [] (icon) <+> el "span" [] (children))

abbrev use_cases : List String → Html
use_cases items =
    el "div" []
      (el "p" [] (say "Built for") <+> el "div" [] (each (λ it. el "span" [] (say it)) (items)))

abbrev footer : String → String → Html
footer price href = el "div" [] (
    el "span" [] (say "from " <+> el "span" [] (say price))
    <+> el "a" (("href", href) ∷ []) (say "Browse hosts " <+> leaf "ArrowUpRight" []))

abbrev code : Html → Html
code children = el "code" [] (children)

record Row : Type 0 where
  name : String
  val : ℕ

abbrev rows : List Row
rows =
    record { name = "Claw · MLX"; val = 130 }
    ∷ record { name = "llama.cpp"; val = 92 }
    ∷ record { name = "OpenAI gpt-4o"; val = 75 }
    ∷ record { name = "Together · Llama-70B"; val = 58 }
    ∷ []

abbrev bar : Bool → Row → Html
bar top r = el "div" [] (
    el "span" [] (say r.name)
    <+> el "div" [] (leaf "div" [])
    <+> el "span" (("className", if top then "text-accent-crimson" else "text-foreground/80") ∷ [])
        (say (show r.val)))

-- The first bar stands out.
abbrev bars : List Row → Html
bars [] = []
bars (r ∷ more) = bar true r <+> each (bar false) more

unfoldable pub bar_chart : Html
unfolding show
bar_chart = el "div" [] (
    el "div" [] (el "span" [] (say "tok/s · Qwen 7B · batch 1") <+> el "span" [] (say "M3 Max"))
    <+> el "div" [] (bars rows))

unfoldable pub sandbox_card : Html
sandbox_card = card false (
    header "01 / Claw Sandbox" "Sandbox" "Disposable Linux microVMs for agentic coding"
      (leaf "Box" [])
    <+> el "p" [] (
        say
          "Drop an agent into a fresh Linux VM and let it run. Each booking gets its own microVM via Apple’s "
        <+> code (say "container")
        <+> say
            " framework — boots in under a second, full reset on session end. Built for code- running agents, build experiments, and untrusted workloads that you don’t want anywhere near your laptop.")
    <+> el "ul" [] (
        bullet (leaf "Terminal" [])
          (say "Full POSIX environment: bash, git, Node, Python, uv, Cargo")
        <+> bullet (leaf "GitBranch" [])
            (say "Pull a repo, run the agent, push the diff back. Zero local risk.")
        <+> bullet (leaf "Shield" [])
            (say "Hardened-Runtime signed; no escalation to host filesystem")
        <+> bullet (leaf "Zap" []) (say "0.8s cold-start. Snapshots cache common toolchains."))
    <+> use_cases ("coding agents" ∷ "test harnesses" ∷ "untrusted code" ∷ "background jobs" ∷ [])
    <+> footer "$0.40 / hr" "/browse?tier=sandbox")

unfoldable pub inference_card : Html
unfolding bar_chart
inference_card = card false (
    header "02 / Claw Inference" "Inference"
      "Local LLM serving on Apple Silicon, no provider markup" (leaf "CircuitBoard" [])
    <+> el "p" [] (
        say
          "Hit a chat-completions endpoint that runs on a real M-series chip. MLX-tuned models stream at "
        <+> code (say "130 tok/s")
        <+> say
            " on an M3 Max — measurably faster than llama.cpp on the same hardware. No spread on tokens, no cold-boot fees, no data leaving the Mac you rented.")
    <+> bar_chart
    <+> el "ul" [] (
        bullet (leaf "Sparkles" [])
          (say "OpenAI-compatible " <+> code (say "/v1/chat/completions") <+> say " — drop-in")
        <+> bullet (leaf "Lock" [])
            (say "Prompts and outputs never touch the marketplace. Edge-private by default.")
        <+> bullet (leaf "Zap" [])
            (say "MLX 4-bit quants for Qwen, Gemma, Llama; vLLM coming for x86 hosts"))
    <+> use_cases ("RAG" ∷ "fine-tunes" ∷ "private chat" ∷ "batch eval" ∷ [])
    <+> footer "$0.90 / hr" "/browse?tier=inference")

unfoldable pub hermes_card : Html
hermes_card = card true (
    el "div" [] (say "Q3 · 2026")
    <+> header "03 / Claw Hermes" "Hermes" "Persistent agents with memory across bookings"
        (leaf "Rocket" [])
    <+> el "p" [] (
        say
          "A persistent agent runtime that survives across bookings. Hermes carries your prompts, tools, and embeddings between sessions — so you can hire a Mac on Tuesday, return Friday, and pick up exactly where the agent left off. Shipping after Sandbox + Inference reach GA.")
    <+> el "ul" [] (
        bullet (leaf "Sparkles" [])
          (say "Pinned model + tool config travels with the agent identity")
        <+> bullet (leaf "GitBranch" [])
            (say "Vector store + scratch FS persisted, encrypted, optionally restored")
        <+> bullet (leaf "Shield" [])
            (say "Trust-but-verify v2: Secure Enclave attestation per booking"))
    <+> el "div" [] (
        el "p" [] (say "Design partner waitlist")
        <+> el "p" [] (
            say "Building a long-running agent? "
            <+> el "a" (("href", "/auth/login") ∷ []) (say "Sign in")
            <+> say " and we’ll notify you when Hermes opens.")))

unfoldable pub offerings : Html
unfolding sandbox_card inference_card hermes_card
offerings = el "section" (("id", "offerings") ∷ []) (
    el "header" [] (
      el "p" [] (say "Capabilities")
      <+> el "h2" [] (el "span" [] (say "Three workloads") <+> say ", one binary.")
      <+> el "p" [] (
          say
            "Suppliers light up the workloads they want to host. Each one runs inside the same Apple-signed sandbox, with clean teardown between renters and zero state leakage."))
    <+> el "div" [] (sandbox_card <+> inference_card <+> hermes_card))
