-- ===== src/Site/Frame.antt =====
-- web/src/components/site: the header and the footer of the public pages.
use claw_compute.Prelude.{ℕ, String, Bool, true, false, [], ◌∷◌, show, if◌then◌else◌}
use claw_compute.Html.{Attrs, Html, el, leaf, say, ◌<+>◌}

unfoldable pub nav_link : String → Html → Html
nav_link href children = el "Link" (("href", href) ∷ []) (children)

unfoldable pub site_header : Html
unfolding nav_link
site_header = el "header" [] (
    el "div" [] (
      el "Link" (("href", "/") ∷ []) (
        leaf "Image" (("src", "/openclaw.svg") ∷ [])
        <+> el "span" [] (say "Claw")
        <+> el "span" [] (say "· compute"))
      <+> el "nav" [] (
          nav_link "/browse" (say "Browse")
          <+> nav_link "/#how" (say "How")
          <+> nav_link "/pricing" (say "Pricing")
          <+> nav_link "/ledger" (el "span" [] (leaf "span" [] <+> say "Ledger")))
      <+> el "div" [] (
          el "Button" (("asChild", "true") ∷ ("size", "sm") ∷ ("variant", "ghost") ∷ [])
            (el "Link" (("href", "/auth/login") ∷ []) (say "Sign in"))
          <+> el "Button" (("asChild", "true") ∷ ("size", "sm") ∷ []) (
              el "Link" (("href", "/auth/login?next=/dashboard/become-supplier") ∷ [])
                (say "List your Mac")))))

unfoldable pub footer_col : String → Html → Html
footer_col title children = el "div" [] (el "p" [] (say title) <+> el "ul" [] (children))

abbrev elsewhere : Bool → Attrs
elsewhere external = if external then ("target", "_blank") ∷ ("rel", "noreferrer") ∷ [] else []

unfoldable pub footer_link : String → Bool → Html → Html
footer_link href external children =
    el "li" [] (el "Link" (("href", href) ∷ elsewhere external) children)

unfoldable pub site_footer : ℕ → Html
unfolding footer_col footer_link show
site_footer year = el "footer" [] (
    el "div" [] (
      el "div" [] (
        el "Link" (("href", "/") ∷ []) (
          leaf "Image" (("src", "/openclaw.svg") ∷ [])
          <+> say "Claw"
          <+> el "span" [] (say "· compute"))
        <+> el "p" [] (
            say
              "A peer-to-peer marketplace for idle Apple Silicon. Suppliers earn from compute that would otherwise sit idle.")
        <+> el "p" [] (say "© " <+> say (show year) <+> say " · v0.1 · open core"))
      <+> footer_col "Platform" (
          footer_link "/browse" false (say "Browse hosts")
          <+> footer_link "/pricing" false (say "Pricing")
          <+> footer_link "/ledger" false (say "Ledger")
          <+> footer_link "/#offerings" false (say "Offerings")
          <+> footer_link "/#how" false (say "How it works"))
      <+> footer_col "Suppliers" (
          footer_link "/auth/login?next=/dashboard/become-supplier" false (say "Start earning")
          <+> footer_link "/dashboard/suppliers/workers" false (say "Worker console")
          <+> footer_link "/dashboard/suppliers/offerings" false (say "Offerings"))
      <+> footer_col "Build" (
          footer_link "https://github.com/claw-marketplace" true (say "GitHub")
          <+> footer_link "/docs" false (say "Docs (soon)")
          <+> footer_link "/changelog" false (say "Changelog"))))
