-- ===== src/Api/Laws.antt =====
-- What a request carries and what its answer becomes (web/src/lib/api.ts).
use claw_compute.Prelude.{
  eqb, ◌⊎◌, inl, inr, Bool-cases, String, ◌≡◌, refl, Option, none, some, arith, Bool, true, false,
  List, [], ◌∷◌, ◌==◌, if◌then◌else◌, ◌↔◌, ◌≢◌, ◌<>◌,
}
use claw_compute.Platform.{Body, Platform, Fetched, unreachable, response, json, unreadable}
use claw_compute.Exec.{Exception, done, throw, api_error, error}
use claw_compute.Session.{truthy}
use claw_compute.Api.{headers, interpret, is_ok, error_detail}

-- The value of a header of a request.
abbrev pub header : String → List (String × String) → Option String
header name [] = none
header name ((key, value) ∷ more) = if key == name then some value else header name more

abbrev pub bearer_of : Option String → Option String
bearer_of none = none
bearer_of (some t) = some ("Bearer " <> t)

-- A request names the session token exactly if the caller asked for authentication and there is a
-- token; it names JSON content exactly if it has a body.
headers_lem :
    (body : Option Body) (auth : Bool) (token : Option String)
    → ((header "Authorization" (headers body auth token)
          ≡ (if auth then bearer_of (truthy token) else none))
        × ((header "Content-Type" (headers body auth token) ≡ some "application/json")
            ↔ (body ≢ none)))
unfolding headers
headers_lem none true none = (refl, ground arith)
headers_lem none true (some t) = ground arith
headers_lem none false t = (refl, ground arith)
headers_lem (some b) true none = (refl, ground arith)
headers_lem (some b) true (some t) = ground arith
headers_lem (some b) false t = (refl, ground arith)

module _ (P : Platform) {A : Type 0} (read : P.Json → A) where
  -- A request ends with a value or an exception: it redirects nowhere.
  pub interpret_cases :
      (a : Fetched P.Json)
      → ((r : Option A) × (interpret P read a ≡ done r))
        ⊎ ((e : Exception) × (interpret P read a ≡ throw e))
  unfolding interpret
  interpret_cases (unreachable m) = inr (error m, refl)
  interpret_cases (response status status_text (unreadable m)) = elim (Bool-cases (is_ok status)) [
    | inl ok ↦ elim (Bool-cases (eqb status 204)) [
      | inl e ↦ inl (none, ground arith)
      | inr e ↦ inr (error m, ground arith)
    ]
    | inr e ↦ inr (api_error status (error_detail P status_text (unreadable m)), ground arith)
  ]
  interpret_cases (response status status_text (json j)) = elim (Bool-cases (is_ok status)) [
    | inl ok ↦ elim (Bool-cases (eqb status 204)) [
      | inl e ↦ inl (none, ground arith)
      | inr e ↦ inl (some (read j), ground arith)
    ]
    | inr e ↦ inr (api_error status (error_detail P status_text (json j)), ground arith)
  ]
