-- ===== src/Actions.antt =====
-- The other form actions of the dashboard: becoming a supplier (become-supplier/actions.ts), offerings
-- (suppliers/offerings/actions.ts), workers (suppliers/workers/actions.ts), messages
-- (bookings/[id]/actions.ts) and the magic link (auth/actions.ts), under web/src/app.
pub mod Tags
pub mod Laws
use claw_compute.Prelude.{
  String, true, false, not, Option, none, some, List, [], ◌∷◌, ◌<>◌, map, filter, split_comma, trim,
  is_empty, inl, inr, if◌then◌else◌,
}
use claw_compute.Exec.{Exec, ◌>>=◌, ◌>>◌, pure, attempt, redirect, message_or}
use claw_compute.ApiTypes.{MessageOut}
use claw_compute.Platform.{Platform, Env, State, str}
use claw_compute.Api.{unset, given, post, patch, del, defined}
use claw_compute.Forms.{
  FormData, entry, from_entries, Shape, Schema, string, min, max, email, string_or, coerced_int,
  transformed, one_of, optional, Zod, valid, invalid, first_issue, FormState,
}
use claw_compute.Wallet.{revalidate}

abbrev pub error_state : String → FormState
error_state message = record { error = some message; saved = false }

unfoldable pub supplier_schema : Schema
supplier_schema =
    ("display_name", string (min 1 ∷ max 120 ∷ [])) ∷ ("payout_email", string (email ∷ [])) ∷ []

unfoldable pub status_shape : Shape
status_shape = one_of ("draft" ∷ "active" ∷ "archived" ∷ [])

-- `s.split(",").map((t) => t.trim()).filter(Boolean)`
unfoldable pub tags : String → List String
unfolding split_comma trim
tags s = filter (λ t. not (is_empty t)) (map trim (split_comma s))

unfoldable pub offering_schema : Schema
unfolding status_shape tags
offering_schema =
    ("title", string (min 1 ∷ max 200 ∷ []))
    ∷ ("description", string_or "")
    ∷ ("price_per_hour_cents", coerced_int 0)
    ∷ ("capability_tags", transformed tags)
    ∷ ("status", status_shape)
    ∷ []

-- `Body.partial()`
unfoldable pub partial : Schema → Schema
partial = map (λ (name, shape). (name, optional shape))

unfoldable pub worker_schema : Schema
worker_schema = ("name", string (min 1 ∷ max 120 ∷ [])) ∷ []

unfoldable pub link_schema : Schema
link_schema = ("email", string (email ∷ [])) ∷ []

pub data WorkerResult : Type 0 where
  created : (provisioning_token : String) → (worker_id : String) → WorkerResult
  refused : String → WorkerResult

pub data SendMessageResult : Type 0 where
  sent : MessageOut → SendMessageResult
  unsent : String → SendMessageResult

-- `undefined as MessageOut` where the answer has no content.
abbrev pub or_undefined : MessageOut → Option MessageOut → MessageOut
or_undefined u none = u
or_undefined u (some m) = m

-- `(formData.get("content") as string | null)?.trim()`, if it is not empty.
unfoldable pub content_of : FormData → Option String
unfolding trim
content_of form = elim (entry "content" form) [
  | none ↦ none
  | some content ↦ if is_empty (trim content) then none else some (trim content)
]

module _ (P : Platform) (env : Env) (Z : Zod) where
  unfoldable pub become_supplier : FormData → Exec (State P) FormState
  unfolding supplier_schema post
  become_supplier form = elim (Z.object supplier_schema (λ name. entry name form)) [
    | invalid issues ↦ pure (error_state (first_issue "Invalid input." issues))
    | valid body ↦ do
      posted ← attempt (post P env (λ _. tt) "/v1/suppliers" body unset)
      elim posted [
        | inl e ↦ pure (error_state (message_or "Failed." e))
        | inr _ ↦ redirect "/dashboard/suppliers"
      ]
  ]

  -- The two last lines of every offering action.
  abbrev to_offerings : {A : Type 0} → Exec (State P) A
  to_offerings =
      revalidate P env Z "/dashboard/suppliers/offerings"
      >> redirect "/dashboard/suppliers/offerings"

  unfoldable pub create_offering : FormData → Exec (State P) FormState
  unfolding offering_schema post
  create_offering form = elim (Z.object offering_schema (from_entries form)) [
    | invalid issues ↦ pure (error_state (first_issue "Invalid input." issues))
    | valid body ↦ do
      posted ← attempt (post P env (λ _. tt) "/v1/offerings" body unset)
      elim posted [
        | inl e ↦ pure (error_state (message_or "Failed to create." e))
        | inr _ ↦ to_offerings
      ]
  ]

  unfoldable pub update_offering : String → FormData → Exec (State P) FormState
  unfolding offering_schema partial patch
  update_offering id form = elim (Z.object (partial offering_schema) (from_entries form)) [
    | invalid issues ↦ pure (error_state (first_issue "Invalid input." issues))
    | valid body ↦ do
      patched ← attempt (patch P env (λ _. tt) ("/v1/offerings/" <> id) body unset)
      elim patched [
        | inl e ↦ pure (error_state (message_or "Failed to update." e))
        | inr _ ↦ to_offerings
      ]
  ]

  -- A failure is only written to the console.
  unfoldable pub archive_offering : String → Exec (State P) (Unit {0})
  unfolding del
  archive_offering id = do
    attempt (del P env (λ _. tt) ("/v1/offerings/" <> id) unset)
    to_offerings

  unfoldable pub create_worker : FormData → Exec (State P) WorkerResult
  unfolding worker_schema post
  create_worker form = elim (Z.object worker_schema (λ name. entry name form)) [
    | invalid issues ↦ pure (refused "Name required.")
    | valid body ↦ do
      posted ←
          attempt (
            post P env P.as_provisioning "/v1/workers/provisioning-tokens" body unset >>= defined P)
      elim posted [
        | inl e ↦ pure (refused (message_or "Failed to create worker." e))
        | inr r ↦ pure (created r.provisioning_token r.worker.id)
      ]
  ]

  -- A message that is missing or blank is not sent.
  unfoldable pub send_message : String → FormData → Exec (State P) SendMessageResult
  unfolding post content_of
  send_message booking_id form = elim (content_of form) [
    | none ↦ pure (unsent "Type a message.")
    | some content ↦ do
      posted ← attempt (
          post P env P.as_message ("/v1/bookings/" <> booking_id <> "/messages")
            (("content", str content) ∷ []) unset)
      elim posted [
        | inl e ↦ pure (unsent (message_or "Send failed." e))
        | inr answer ↦
            revalidate P env Z ("/dashboard/bookings/" <> booking_id)
            >> pure (sent (or_undefined P.undefined_as_message answer))
      ]
  ]

  unfoldable pub request_magic_link : FormData → Exec (State P) FormState
  unfolding link_schema post
  request_magic_link form = elim (Z.object link_schema (λ name. entry name form)) [
    | invalid issues ↦ pure (error_state "Enter a valid email.")
    | valid body ↦ do
      posted ← attempt (post P env (λ _. tt) "/v1/auth/magic-link" body (given false))
      elim posted [
        | inl e ↦ pure (error_state (message_or "Could not send link." e))
        | inr _ ↦ pure (record { error = none; saved = true })
      ]
  ]
