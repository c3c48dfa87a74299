-- ===== src/Browse/Laws.antt =====
-- The catalogue while the API cannot be reached, and when an offering is not found
-- (web/src/app/browse/page.tsx, web/src/app/offerings/[id]/page.tsx, web/src/lib/seed.ts).
use mathlib.Core.Path.{subst}
use claw_compute.Prelude.{
  sym, eqb, refl, ℕ, String, Bool, ◌≡◌, ◌⊎◌, ◌↔◌, inl, inr, true, false, Option, none, some, List,
  [], ◌∷◌, arith, All, filter, includes, Bool-cases, ◌<>◌,
}
use claw_compute.ApiTypes.{OfferingOut}
use claw_compute.Exec.{Outcome, done, throw, redirected, not_found, api_error, error, thrown_value}
use claw_compute.Platform.{Request, Platform, Env, State, Fetched, unreachable}
use claw_compute.Session.{truthy}
use claw_compute.Api.{request, build, interpret}
use claw_compute.SafeApi.{safe_get}
use claw_compute.Seed.{seed_offerings, find_seed_offering}
use claw_compute.Browse.{
  query, seeds_with, seed_filtered, browse_view, browse_page, offering_view, offering_detail,
}

module _ {A : Type 0} (p : A → Bool) where
  filter-All : (xs : List A) → All (λ x. p x ≡ true) (filter p xs)
  filter-All [] = tt
  filter-All (x ∷ xs) = elim (Bool-cases (p x)) [
    | inl e ↦ rw (e) (e, filter-All xs)
    | inr e ↦ rw (e) (filter-All xs)
  ]

All-filter :
    {A : Type 0} (Q : A → Type 0) (p : A → Bool) (xs : List A) → All Q xs → All Q (filter p xs)
All-filter Q p [] h = tt
All-filter Q p (x ∷ xs) (q, h) = elim (Bool-cases (p x)) [
  | inl e ↦ rw (e) (q, All-filter Q p xs h)
  | inr e ↦ rw (e) (All-filter Q p xs h)
]

All-map :
    {A : Type 0} {Q R : A → Type 0} → ((x : A) → Q x → R x) → (xs : List A) → All Q xs → All R xs
All-map f [] h = tt
All-map f (x ∷ xs) (q, h) = (f x q, All-map f xs h)

-- What stands in for the catalogue when a tag is asked for are seeds that have the tag.
seed_filtered_tagged :
    (capability : Option String) (tag : String)
    → truthy capability ≡ some tag
    → All
        (λ (o : OfferingOut). includes tag o.capability_tags ≡ true)
        (seed_filtered capability).items
unfolding seed_filtered
seed_filtered_tagged capability tag e =
    subst
      (λ o. All (λ (p : OfferingOut). includes tag p.capability_tags ≡ true) (seeds_with o).items)
      (sym e) (filter-All _ seed_offerings)

seeds_found : All (λ (o : OfferingOut). find_seed_offering o.id ≡ some o) seed_offerings
unfolding seed_offerings find_seed_offering
seeds_found = (refl, (refl, (refl, (refl, (refl, (refl, tt))))))

shown_found :
    (o : Option String)
    → All (λ (o : OfferingOut). find_seed_offering o.id ≡ some o) (seeds_with o).items
shown_found none = seeds_found
shown_found (some tag) = All-filter _ _ seed_offerings seeds_found

module _ (P : Platform) (env : Env) (year : ℕ) where
  -- No request reaches the API.
  abbrev pub IsDown : Type 0
  IsDown = (r : Request) (w : P.World) → (m : String) × ((P.fetch r w).0 ≡ unreachable m)

  module _ (s : State P) where
    -- The API's answer to the read of an offering, which carries no session.
    abbrev pub offering_answer : String → Fetched P.Json
    offering_answer id =
        (P.fetch (build env "GET" ("/v1/offerings/" <> id) none false none) s.world).0

    detail_down :
        (down : IsDown) (o : OfferingOut)
        → find_seed_offering o.id ≡ some o
        → (offering_detail P env year o.id s).0 ≡ done (offering_view year o)
    unfolding offering_detail request interpret
    detail_down down o e =
        let (m, gone) = down (build env "GET" ("/v1/offerings/" <> o.id) none false none) s.world in
        ground arith

    catalogue_down :
        (down : IsDown) (encode : String → String) (capability : Option String)
        → (browse_page P env year encode capability s).0
          ≡ done (browse_view year capability (seed_filtered capability).items)
    unfolding browse_page safe_get request interpret
    catalogue_down down encode capability =
        let (m, gone) =
          down (build env "GET" ("/v1/offerings?" <> query encode capability) none false none)
            s.world in
        ground arith

    -- While no request reaches the API the catalogue shows seeds, and each one shown has a page of its
    -- own, which shows that offering.
    pub browse_down :
        (down : IsDown) (encode : String → String) (capability : Option String)
        → ((browse_page P env year encode capability s).0
            ≡ done (browse_view year capability (seed_filtered capability).items))
          × All
              (λ o. (offering_detail P env year o.id s).0 ≡ done (offering_view year o))
              (seed_filtered capability).items
    unfolding seed_filtered
    browse_down down encode capability = (
      catalogue_down down encode capability,
      All-map (detail_down down) _ (shown_found (truthy capability)),
    )

    -- What the API answered names no offering: it knows none, or the answer did not arrive or could
    -- not be read.
    abbrev pub IsUnknown : String → Type 0
    IsUnknown id =
        (m : String) × ((interpret P P.as_offering (offering_answer id) ≡ throw (api_error 404 m))
          ⊎ (interpret P P.as_offering (offering_answer id) ≡ throw (error m)))

    missing_of :
        (id : String) (x : Outcome (Option OfferingOut))
        → interpret P P.as_offering (offering_answer id) ≡ x
        → (offering_detail P env year id s).0 ≡ not_found
        → IsUnknown id × (find_seed_offering id ≡ none)
    unfolding offering_detail request
    missing_of id (done o) x_eq h = absurd (ground arith)
    missing_of id (throw (api_error status m)) x_eq h = elim (Bool-cases (eqb status 404)) [
      | inl is_404 ↦ ((m, inl (ground arith)), ground arith)
      | inr not_404 ↦ absurd (ground arith)
    ]
    missing_of id (throw (error m)) x_eq h = ((m, inr x_eq), ground arith)
    missing_of id (throw thrown_value) x_eq h = absurd (ground (arith))
    missing_of id (redirected path) x_eq h = absurd (ground arith)
    missing_of id not_found x_eq h = absurd (ground arith)

    of_missing :
        (id : String)
        → IsUnknown id × (find_seed_offering id ≡ none)
        → (offering_detail P env year id s).0 ≡ not_found
    unfolding offering_detail request
    of_missing id ((m, inl x), n) = ground arith
    of_missing id ((m, inr x), n) = ground arith

    -- The page of an offering is the not-found page exactly if the API's answer names no offering and
    -- no seed has the id.
    pub offering_detail-eq-not_found_iff :
        (id : String)
        → ((offering_detail P env year id s).0 ≡ not_found)
          ↔ (IsUnknown id × (find_seed_offering id ≡ none))
    unfolding offering_detail request
    offering_detail-eq-not_found_iff id = (missing_of id _ refl, of_missing id)
