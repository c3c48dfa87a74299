-- ===== src/Supplier/Laws.antt =====
-- What a supplier's pages and actions do with a refusal of the API (web/src/app/dashboard/suppliers).
use claw_compute.Prelude.{
  refl, ℕ, String, ◌≡◌, ◌↔◌, inl, inr, true, false, Option, none, some, List, [], ◌∷◌, ◌++◌, arith,
  Bool-cases, eqb, ◌<>◌,
}
use claw_compute.ApiTypes.{WorkerOut}
use claw_compute.Exec.{Outcome, done, throw, redirected, not_found, api_error, error, thrown_value}
use claw_compute.Platform.{Platform, Env, State, Fetched}
use claw_compute.Session.{read_token}
use claw_compute.Api.{build, interpret, request}
use claw_compute.Api.Laws.{interpret_cases}
use claw_compute.Forms.{Zod}
use claw_compute.Locale.{Locale}
use claw_compute.Actions.{archive_offering}
use claw_compute.Supplier.Workers.{workers_page}

module _ (P : Platform) (env : Env) where
  -- Archiving always leads back to the list of offerings, which is rendered anew, whether the API
  -- accepted it or not.
  archive_offering_lem :
      (Z : Zod) (id : String) (s : State P)
      → ((archive_offering P env Z id s).0 ≡ redirected "/dashboard/suppliers/offerings")
        × ((archive_offering P env Z id s).1.revalidated
            ≡ s.revalidated ++ ("/dashboard/suppliers/offerings" ∷ []))
  unfolding archive_offering request
  archive_offering_lem Z id s =
      elim (interpret_cases P (λ _. tt {0})
        (P.fetch (build env "DELETE" ("/v1/offerings/" <> id) none true (read_token P env s.jar))
          s.world).0) [
            | inl (r, a) ↦ (ground arith, ground arith)
            | inr (e, a) ↦ (ground arith, ground arith)
          ]

  module _ (L : Locale) (s : State P) where
    -- The API's answer to the list of the supplier's machines.
    abbrev pub workers_answer : Fetched P.Json
    workers_answer =
        (P.fetch (build env "GET" "/v1/suppliers/me/workers" none true (read_token P env s.jar))
          s.world).0

    to_refusal :
        (x : Outcome (Option (List WorkerOut)))
        → interpret P P.as_workers workers_answer ≡ x
        → (status : ℕ) (message : String)
        → (workers_page P env L s).0 ≡ throw (api_error status message)
        → (interpret P P.as_workers workers_answer ≡ throw (api_error status message))
          × (eqb status 403 ≡ false)
          × (eqb status 404 ≡ false)
    unfolding workers_page request
    to_refusal (done none) x_eq status message h = absurd (ground arith)
    to_refusal (done (some ws)) x_eq status message h = absurd (ground arith)
    to_refusal (throw (api_error n m)) x_eq status message h = elim (Bool-cases (eqb n 403)) [
      | inl e ↦ absurd (ground arith)
      | inr e ↦ elim (Bool-cases (eqb n 404)) [
        | inl f ↦ absurd (ground arith)
        | inr f ↦ (ground arith, ground arith, ground arith)
      ]
    ]
    to_refusal (throw (error m)) x_eq status message h = absurd (ground arith)
    to_refusal (throw thrown_value) x_eq status message h = absurd (ground arith)
    to_refusal (redirected path) x_eq status message h = absurd (ground arith)
    to_refusal not_found x_eq status message h = absurd (ground arith)

    of_refusal :
        (status : ℕ) (message : String)
        → (interpret P P.as_workers workers_answer ≡ throw (api_error status message))
          × (eqb status 403 ≡ false)
          × (eqb status 404 ≡ false)
        → (workers_page P env L s).0 ≡ throw (api_error status message)
    unfolding workers_page request
    of_refusal status message (a, e, f) = ground arith

    -- The list of machines throws an `ApiError` exactly if its request does, with a status other than
    -- 403 and 404.
    workers_page-eq-throw_iff :
        (status : ℕ) (message : String)
        → ((workers_page P env L s).0 ≡ throw (api_error status message)) ↔ (
            (interpret P P.as_workers workers_answer ≡ throw (api_error status message))
            × (eqb status 403 ≡ false)
            × (eqb status 404 ≡ false))
    unfolding workers_page request
    workers_page-eq-throw_iff status message =
        (to_refusal _ refl status message, of_refusal status message)
