-- ===== src/Site/Errors.antt =====
-- web/src/app/error.tsx and web/src/app/not-found.tsx: the pages of a thrown error and of a missing page.
use claw_compute.Prelude.{String, is_empty, Option, [], ◌∷◌, if◌then◌else◌}
use claw_compute.Html.{Html, el, leaf, say, for_some, ◌<+>◌}

-- `error.message || "Unknown error."`
abbrev or_unknown : String → String
or_unknown message = if is_empty message then "Unknown error." else message

-- `digest` is none if it is missing or empty.
unfoldable pub error_boundary : String → Option String → Html
error_boundary message digest = el "main" [] (
    el "div" [] (leaf "AlertTriangle" [])
    <+> el "h1" [] (say "Something broke.")
    <+> el "p" [] (say (or_unknown message))
    <+> for_some (digest) (λ code. el "p" [] (say "digest: " <+> say code))
    <+> el "div" [] (
        el "Button" [] (leaf "RotateCcw" [] <+> say "Try again")
        <+> el "Button" (("asChild", "true") ∷ ("variant", "outline") ∷ [])
            (el "Link" (("href", "/") ∷ []) (say "Go home"))))

unfoldable pub not_found_page : Html
not_found_page = el "main" [] (
    el "div" [] (leaf "div" [])
    <+> el "p" [] (say "404")
    <+> el "h1" [] (say "Lost in the cluster.")
    <+> el "p" [] (
        say
          "The page you're looking for isn't running on any worker we know. Maybe it was archived, maybe the link is stale.")
    <+> el "div" [] (
        el "Button" (("asChild", "true") ∷ [])
          (el "Link" (("href", "/") ∷ []) (leaf "ArrowLeft" [] <+> say "Home"))
        <+> el "Button" (("asChild", "true") ∷ ("variant", "outline") ∷ [])
            (el "Link" (("href", "/browse") ∷ []) (leaf "Search" [] <+> say "Browse offerings"))))
