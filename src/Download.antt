-- ===== src/Download.antt =====
-- web/src/app/download/page.tsx: the download page and its guess at the processor.
use claw_compute.Prelude.{
  ℕ, String, Bool, false, not, ◌&&◌, ◌||◌, Option, none, some, [], ◌∷◌, ◌<>◌, ◌==◌, leb, chars,
  slice_to, slice_from, if◌then◌else◌,
}
use Prim.Native.Char.{code}
use Prim.Native.String.{[], ◌∷◌}
use claw_compute.Html.{Html, el, leaf, say, ◌<+>◌}
use claw_compute.Site.Frame.{site_header, site_footer}
use claw_compute.Supplier.NewWorker.{install_snippet}

abbrev repo : String
repo = "rajagurunath/claw-compute"

abbrev releases_page : String
releases_page = "https://github.com/" <> repo <> "/releases/latest"

abbrev tarball : String
tarball =
    "https://github.com/" <> repo
    <> "/releases/latest/download/claw-worker-latest-aarch64-apple-darwin.tar.gz"

abbrev install : String
install =
    "curl -fsSL https://raw.githubusercontent.com/" <> repo <> "/main/worker/install.sh | bash"

abbrev register : String → String
register api_base =
    "claw-worker register --api-url " <> api_base
    <> " --provisioning-token <TOKEN>\nclaw-worker run --api-url " <> api_base

pub data Compat : Type 0 where
  checking supported unsupported : Compat

-- The browser's `navigator`.
pub record Navigator : Type 0 where
  pub user_agent : String
  pub platform : Option String

abbrev starts : String → String → Bool
starts word s = slice_to (chars word) s == word

-- A regular expression that is tried at each position.
abbrev found : (String → Bool) → String → Bool
found here [] = here []
found here (c ∷ s) = here (c ∷ s) || found here s

abbrev five_to_nine : String → Bool
five_to_nine [] = false
five_to_nine (c ∷ s) = leb b'5' (code c) && leb (code c) b'9'

-- `/OS X 10_1[5-9]/`
abbrev is_catalina_or_later : String → Bool
is_catalina_or_later s = starts "OS X 10_1" s && five_to_nine (slice_from 9 s)

abbrev or_none : Option String → String
or_none none = ""
or_none (some s) = s

abbrev is_mac : Navigator → Bool
is_mac n = found (starts "Mac") (or_none n.platform) || found (starts "Macintosh") n.user_agent

abbrev looks_intel : Navigator → Bool
looks_intel n = found (starts "Intel") n.user_agent && not (found is_catalina_or_later n.user_agent)

-- There is no `navigator` on the server.
unfoldable pub detect_apple_silicon : Option Navigator → Compat
detect_apple_silicon none = checking
detect_apple_silicon (some n) =
    if not (is_mac n) then unsupported else if looks_intel n then unsupported else supported

unfoldable pub compat_badge : Compat → Html
compat_badge supported =
    el "div" [] (leaf "Check" [] <+> say "Compatible — macOS on Apple Silicon detected.")
compat_badge unsupported = el "div" [] (
    leaf "Cpu" []
    <+> say
        "claw-worker runs on Apple Silicon Macs only. You can still download it to move to a Mac.")
compat_badge checking = el "div" [] (leaf "Cpu" [] <+> say "Checking compatibility…")

unfoldable pub download_page : String → ℕ → Compat → Html
unfolding compat_badge install_snippet site_header site_footer
download_page api_base year compat =
    site_header
    <+> el "main" [] (
        el "section" [] (
          el "div" [] (leaf "Cpu" [] <+> say " claw-worker · Apple Silicon")
          <+> el "h1" [] (el "span" [] (say "Download the worker."))
          <+> el "p" [] (
              say
                "Put an idle Mac to work in one command. The worker runs sandboxed agents locally, registers with a token from your dashboard, and pays out USDC for the hours it's hired.")
          <+> el "div" [] (compat_badge compat)
          <+> el "div" [] (
              el "div" [] (leaf "Terminal" [] <+> say " Install") <+> install_snippet false install)
          <+> el "div" [] (
              el "Button" (("asChild", "true") ∷ ("size", "lg") ∷ []) (
                el "a" (("href", tarball) ∷ ("download", "true") ∷ [])
                  (say "Download binary" <+> leaf "Download" []))
              <+> el "span" [] (
                  say "claw-worker · aarch64-apple-darwin · .tar.gz ·"
                  <+> say " "
                  <+> el "a"
                      (("href", releases_page) ∷ ("target", "_blank") ∷ ("rel", "noreferrer") ∷ [])
                      (say "all releases")))
          <+> el "div" [] (
              el "div" [] (leaf "KeyRound" [] <+> say " Register & run")
              <+> install_snippet false (register api_base)
              <+> el "p" [] (
                  say
                    "Grab a provisioning token from your supplier dashboard first — it's shown once and discarded server-side after register succeeds."))
          <+> el "div" [] (
              el "Button" (("asChild", "true") ∷ ("size", "lg") ∷ ("variant", "outline") ∷ []) (
                el "Link" (("href", "/auth/login?next=/dashboard/become-supplier") ∷ [])
                  (say "Get a provisioning token" <+> leaf "ArrowRight" []))
              <+> el "Button" (("asChild", "true") ∷ ("size", "lg") ∷ ("variant", "ghost") ∷ [])
                  (el "Link" (("href", "/pricing") ∷ []) (say "See what you'll earn")))))
    <+> site_footer year
