-- ===== src/Actions/Laws.antt =====
-- What the form actions send, and when they succeed (web/src/app/dashboard and web/src/app/auth).
use claw_compute.Prelude.{
  refl, String, ◌≡◌, ◌⊎◌, ◌↔◌, inl, inr, true, false, Option, none, some, List, [], ◌∷◌, arith,
  trim, Option-cases, Bool-cases, ◌<>◌, is_empty, All, filter, map, not, split_comma,
}
use claw_compute.ApiTypes.{MessageOut}
use claw_compute.Exec.{message_or, Outcome, Exception, done, throw, redirected, not_found}
use claw_compute.Platform.{Platform, Env, State, Body, str, Fetched}
use claw_compute.Session.{read_token}
use claw_compute.Api.{build, interpret, request}
use claw_compute.Api.Laws.{interpret_cases}
use claw_compute.Forms.{FormData, from_entries, Zod, valid, invalid, Parsed}
use claw_compute.Actions.{
  or_undefined, tags, offering_schema, SendMessageResult, sent, unsent, content_of, create_offering,
  send_message,
}

-- No tag that a form names is empty, whatever commas and blanks it is written with.
tags_full : (s : String) → All (λ t. is_empty t ≡ false) (tags s)
unfolding tags
tags_full s = go (map trim (split_comma s))
  where
    go : (ts : List String) → All (λ t. is_empty t ≡ false) (filter (λ t. not (is_empty t)) ts)
    go [] = tt
    go (t ∷ ts) = elim (Bool-cases (is_empty t)) [
      | inl e ↦ rw (e) (go ts)
      | inr e ↦ rw (e) (e, go ts)
    ]

-- What the cases of an outcome leave out.
never :
    {A : Type 0} {x : Outcome A}
    → ((r : A) × (x ≡ done r)) ⊎ ((e : Exception) × (x ≡ throw e))
    → ((path : String) × (x ≡ redirected path)) ⊎ (x ≡ not_found)
    → ⊥
never (inl (r, e)) (inl (path, f)) = ground arith
never (inl (r, e)) (inr f) = ground arith
never (inr (r, e)) (inl (path, f)) = ground arith
never (inr (r, e)) (inr f) = ground arith

module _ (P : Platform) (env : Env) (Z : Zod) where
  module _ (booking_id : String) (form : FormData) (s : State P) where
    -- The API's answer to a message of the booking.
    abbrev pub message_answer : String → Fetched P.Json
    message_answer content =
        (P.fetch
          (build env "POST" ("/v1/bookings/" <> booking_id <> "/messages")
            (some (("content", str content) ∷ [])) true (read_token P env s.jar))
          s.world).0

    -- The form has a text that is not blank, and the API answers it with the message.
    abbrev pub IsSent : MessageOut → Type 0
    IsSent m =
        (content : String) × (r : Option MessageOut) × (content_of form ≡ some content)
        × (interpret P P.as_message (message_answer content) ≡ done r)
        × (or_undefined P.undefined_as_message r ≡ m)

    sent_of :
        (m : MessageOut) → IsSent m → (send_message P env Z booking_id form s).0 ≡ done (sent m)
    unfolding send_message request
    sent_of m (content, r, c, a, e) = ground arith

    of_sent :
        (m : MessageOut) (o : Option String)
        → content_of form ≡ o
        → (send_message P env Z booking_id form s).0 ≡ done (sent m)
        → IsSent m
    unfolding send_message request
    of_sent m none c h = absurd (ground arith)
    of_sent m (some content) c h = elim (interpret_cases P P.as_message (message_answer content)) [
      | inl (r, a) ↦ (content, r, c, a, ground arith)
      | inr (e, a) ↦ absurd (ground arith)
    ]

    -- A message is reported as sent exactly if the form has a text that is not blank, and the API
    -- answers the trimmed text, posted under the session, with that message.
    pub send_message-eq-sent_iff :
        (m : MessageOut) → ((send_message P env Z booking_id form s).0 ≡ done (sent m)) ↔ IsSent m
    send_message-eq-sent_iff m = (of_sent m _ refl, sent_of m)

    total :
        (content_of form ≡ none) ⊎ ((content : String) × (content_of form ≡ some content))
        → (r : SendMessageResult) × ((send_message P env Z booking_id form s).0 ≡ done r)
    unfolding send_message request
    total (inl e) = (unsent "Type a message.", ground arith)
    total (inr (content, e)) = elim (interpret_cases P P.as_message (message_answer content)) [
      | inl (r, a) ↦ (sent (or_undefined P.undefined_as_message r), ground arith)
      | inr (x, a) ↦ (unsent (message_or "Send failed." x), ground arith)
    ]

    -- `sendMessage` always comes back with a result: it throws nothing and redirects nowhere.
    send_message_total :
        (r : SendMessageResult) × ((send_message P env Z booking_id form s).0 ≡ done r)
    send_message_total = total (Option-cases (content_of form))

    -- A message that is missing or blank is refused without a request: the state stays as it is.
    send_message_blank :
        content_of form ≡ none
        → send_message P env Z booking_id form s ≡ (done (unsent "Type a message."), s)
    unfolding send_message
    send_message_blank blank = ground arith

  module _ (form : FormData) (s : State P) where
    -- The API's answer to a new offering.
    abbrev pub offering_reply : String → String → Body → Fetched P.Json
    offering_reply method path body =
        (P.fetch (build env method path (some body) true (read_token P env s.jar)) s.world).0

    -- The form passes the schema, and the API accepts what it says.
    abbrev pub IsCreated : Type 0
    IsCreated =
        (body : Body) × (r : Option (Unit {0})) × (Z.object offering_schema (from_entries form)
          ≡ valid body)
        × (interpret P (λ _. tt) (offering_reply "POST" "/v1/offerings" body) ≡ done r)

    created_of :
        IsCreated → (create_offering P env Z form s).0 ≡ redirected "/dashboard/suppliers/offerings"
    unfolding create_offering request
    created_of (body, r, v, a) = ground arith

    accepted :
        (body : Body) (y : Outcome (Option (Unit {0})))
        → Z.object offering_schema (from_entries form) ≡ valid body
        → interpret P (λ _. tt) (offering_reply "POST" "/v1/offerings" body) ≡ y
        → (create_offering P env Z form s).0 ≡ redirected "/dashboard/suppliers/offerings"
        → (r : Option (Unit {0})) × (interpret P
              (λ _. tt)
              (offering_reply "POST" "/v1/offerings" body)
            ≡ done r)
    unfolding create_offering request
    accepted body (done r) v a h = (r, a)
    accepted body (throw e) v a h = absurd (ground arith)
    accepted body (redirected path) v a h = absurd (
        never (interpret_cases P (λ _. tt) (offering_reply "POST" "/v1/offerings" body))
          (inl (path, a)))
    accepted body not_found v a h =
        absurd
          (never (interpret_cases P (λ _. tt) (offering_reply "POST" "/v1/offerings" body)) (inr a))

    of_created :
        (x : Parsed Body) (y : Body → Outcome (Option (Unit {0})))
        → Z.object offering_schema (from_entries form) ≡ x
        → ((b : Body) → interpret P (λ _. tt) (offering_reply "POST" "/v1/offerings" b) ≡ y b)
        → (create_offering P env Z form s).0 ≡ redirected "/dashboard/suppliers/offerings"
        → IsCreated
    unfolding create_offering request
    of_created (invalid issues) y v a h = absurd (ground arith)
    of_created (valid body) y v a h =
        let (r, e) = accepted body (y body) v (a body) h in (body, r, v, e)

    -- A form is answered by a redirect to the list of offerings exactly if it passes the schema and the
    -- API accepts the parsed offering, posted under the session.
    create_offering-eq-redirected_iff :
        ((create_offering P env Z form s).0 ≡ redirected "/dashboard/suppliers/offerings")
        ↔ IsCreated
    create_offering-eq-redirected_iff = (of_created _ _ refl (λ _. refl), created_of)
