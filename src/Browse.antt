-- ===== src/Browse.antt =====
-- The public offerings: web/src/app/browse/page.tsx, web/src/app/offerings/[id]/page.tsx and
-- web/src/components/browse. What a filter change does in the browser is left out.
pub mod Laws
use claw_compute.Prelude.{
  ℕ, String, false, Option, none, some, List, [], ◌∷◌, ◌<>◌, eqb, ltb, length, take, filter,
  includes, is_empty, if◌then◌else◌, inl, inr,
}
use claw_compute.Exec.{
  Exec, Exception, api_error, error, thrown_value, ◌>>=◌, pure, raise, missing, attempt,
}
use claw_compute.ApiTypes.{OfferingOut, OfferingList}
use claw_compute.Platform.{Platform, Env, State}
use claw_compute.Session.{truthy, default_to}
use claw_compute.Api.{given, get, request, defined}
use claw_compute.SafeApi.{safe_get}
use claw_compute.Seed.{seed_offerings, find_seed_offering}
use claw_compute.Locale.{price}
use claw_compute.Html.{Html, el, leaf, say, when, each, ◌<+>◌}
use claw_compute.Site.Frame.{site_header, site_footer}

-- `text || other`
unfoldable pub or_text : String → String → String
or_text other text = if is_empty text then other else text

unfoldable pub offering_card : OfferingOut → Html
unfolding price or_text
offering_card offering = el "Link" (("href", "/offerings/" <> offering.id) ∷ []) (
    el "div" [] (el "span" [] (leaf "Cpu" [] <+> say "Apple Silicon") <+> leaf "ArrowUpRight" [])
    <+> el "h3" [] (say offering.title)
    <+> el "p" [] (say (or_text "—" offering.description))
    <+> el "div" [] (
        each (λ t. el "Badge" (("variant", "secondary") ∷ []) (say t))
          (take 4 offering.capability_tags))
    <+> el "div" [] (
        el "span" [] (say "$" <+> say (price offering.price_per_hour_cents))
        <+> el "span" [] (say "/ hour")))

unfoldable pub offering_filters : Option String → Html
offering_filters capability = el "div" [] (
    leaf "Search" []
    <+> leaf "Input" (
        ("defaultValue", default_to "" capability)
        ∷ ("placeholder", "Filter by capability tag (e.g. macos, mlx, m3-max)")
        ∷ []))

abbrev seeds_with : Option String → OfferingList
seeds_with none = record { items = seed_offerings; total = length seed_offerings }
seeds_with (some tag) =
    let found = filter (λ (o : OfferingOut). includes tag o.capability_tags) seed_offerings in
    record { items = found; total = length found }

-- The seeds that a page shows where the API cannot answer.
unfoldable pub seed_filtered : Option String → OfferingList
seed_filtered capability = seeds_with (truthy capability)

unfoldable pub none_text : Option String → String
none_text capability = elim (truthy capability) [
  | none ↦ "No offerings yet — be the first supplier."
  | some tag ↦ "No offerings match \"" <> tag <> "\" yet."
]

unfoldable pub browse_view : ℕ → Option String → List OfferingOut → Html
unfolding site_header site_footer offering_filters offering_card none_text
browse_view year capability items =
    site_header
    <+> el "main" [] (
        el "header" [] (
          el "p" [] (say "Claw Compute")
          <+> el "h1" [] (say "Browse offerings")
          <+> el "p" [] (
              say
                "Hire idle Apple Silicon. Filter by capability tag, pick a price you like, sign in to book."))
        <+> el "div" [] (offering_filters capability)
        <+> (if eqb (length items) 0
            then el "div" [] (el "p" [] (say (none_text capability)))
            else el "div" [] (each (λ o. offering_card o) (items))))
    <+> site_footer year

unfoldable pub offering_view : ℕ → OfferingOut → Html
unfolding site_header site_footer price or_text
offering_view year offering =
    site_header
    <+> el "main" [] (
        el "Link" (("href", "/browse") ∷ []) (leaf "ArrowLeft" [] <+> say "Back to browse")
        <+> el "div" [] (leaf "Cpu" [] <+> say "Apple Silicon")
        <+> el "h1" [] (say offering.title)
        <+> el "div" [] (
            el "span" [] (say "$" <+> say (price offering.price_per_hour_cents))
            <+> el "span" [] (say "/ hour"))
        <+> when (ltb 0 (length offering.capability_tags)) (
            el "div" [] (
              each (λ t. el "Badge" (("variant", "secondary") ∷ []) (say t))
                (offering.capability_tags)))
        <+> el "div" [] (el "p" [] (say (or_text "No description provided." offering.description)))
        <+> el "div" [] (
            el "Button" (("asChild", "true") ∷ ("size", "lg") ∷ []) (
              el "Link" (("href", "/auth/login?next=/offerings/" <> offering.id) ∷ [])
                (say "Sign in to book"))
            <+> el "Button" (("asChild", "true") ∷ ("size", "lg") ∷ ("variant", "outline") ∷ [])
                (el "Link" (("href", "/browse") ∷ []) (say "Keep browsing"))))
    <+> site_footer year

-- `URLSearchParams` with the capability set, as a text.
abbrev query : (String → String) → Option String → String
query encode capability = elim (truthy capability) [
  | none ↦ ""
  | some tag ↦ "capability=" <> encode tag
]

module _ (P : Platform) (env : Env) (year : ℕ) where
  -- `encode` is the form encoding of a value.
  unfoldable pub browse_page : (String → String) → Option String → Exec (State P) Html
  unfolding safe_get seed_filtered browse_view
  browse_page encode capability = do
    answer ←
        safe_get P env P.as_offerings ("/v1/offerings?" <> query encode capability)
          (seed_filtered capability) none
    found ← defined P answer
    pure (browse_view year capability found.items)

  seed_or_missing : String → Exec (State P) (Option OfferingOut)
  unfolding find_seed_offering
  seed_or_missing id = elim (find_seed_offering id) [ none ↦ missing | some o ↦ pure (some o) ]

  unknown : String → Exception → Exec (State P) (Option OfferingOut)
  unfolding seed_or_missing
  unknown id (api_error status message) =
      if eqb status 404 then seed_or_missing id else raise (api_error status message)
  unknown id (error message) = seed_or_missing id
  unknown id thrown_value = seed_or_missing id

  unfoldable pub offering_detail : String → Exec (State P) Html
  unfolding get request unknown offering_view
  offering_detail id = do
    loaded ← attempt (get P env P.as_offering ("/v1/offerings/" <> id) (given false))
    answer ← elim loaded [ inl e ↦ unknown id e | inr o ↦ pure o ]
    offering ← defined P answer
    pure (offering_view year offering)
