-- ===== src/Api.antt =====
-- web/src/lib/api.ts: the request that every call of the API makes, and its verbs.
pub mod Laws
use claw_compute.Prelude.{
  ℕ, String, Bool, true, false, Option, none, some, List, [], ◌∷◌, ◌++◌, ◌&&◌, leb, eqb, ◌<>◌,
  is_empty, if◌then◌else◌,
}
use claw_compute.Exec.{Exec, Outcome, done, throw, api_error, error, ◌>>=◌, pure, raise}
use claw_compute.Platform.{
  Platform, Env, State, Body, Request, Content, json, unreadable, Fetched, unreachable, response,
}
use claw_compute.Session.{default_to, read_token, get_token, truthy}

-- `opts?: { auth?: boolean }` of a verb: left out it is `{ auth: true }`.
pub data Auth : Type 0 where
  unset : Auth
  given : Bool → Auth

abbrev wants_token : Auth → Bool
wants_token unset = true
wants_token (given b) = b

abbrev bearer : Option String → List (String × String)
bearer none = []
bearer (some token) = ("Authorization", "Bearer " <> token) ∷ []

abbrev content_type : Option Body → List (String × String)
content_type none = []
content_type (some body) = ("Content-Type", "application/json") ∷ []

-- `init.headers` is never given, so the two `has` tests of `request` always fail.
unfoldable pub headers : Option Body → Bool → Option String → List (String × String)
headers body auth token =
    content_type body
    ++ ((if auth then bearer (truthy token) else [])
        ++ ("ngrok-skip-browser-warning", "1")
          ∷ ("User-Agent", "claw-marketplace-frontend/0.1")
          ∷ [])

-- `res.ok`
abbrev pub is_ok : ℕ → Bool
is_ok status = leb 200 status && leb status 299

module _ (P : Platform) where
  -- `detail`: the body's, and the status text where the body is no JSON or has none.
  unfoldable pub error_detail : String → Content P.Json → String
  error_detail status_text (unreadable _) = status_text
  error_detail status_text (json j) = default_to status_text (P.detail j)

  read_content : {A : Type 0} → (P.Json → A) → Content P.Json → Outcome (Option A)
  read_content read (json j) = done (some (read j))
  read_content read (unreadable message) = throw (error message)

  -- What `request` makes of the answer; `none` is `undefined`.
  unfoldable pub interpret : {A : Type 0} → (P.Json → A) → Fetched P.Json → Outcome (Option A)
  unfolding error_detail read_content
  interpret read (unreachable message) = throw (error message)
  interpret read (response status status_text content) =
      if is_ok status
      then if eqb status 204 then done none else read_content read content
      else throw (api_error status (error_detail status_text content))

  -- The first property that the client reads of a result: `undefined` has none.
  abbrev pub defined : {A : Type 0} → Option A → Exec (State P) A
  defined none = raise (error P.undefined_message)
  defined (some a) = pure a

module _ (env : Env) where
  unfoldable pub base : String
  base = default_to "http://localhost:8000" env.next_public_api_url

  unfoldable pub build : String → String → Option Body → Bool → Option String → Request
  unfolding base headers
  build method path body auth token = record {
    url = base <> path;
    method = method;
    headers = headers body auth token;
    body = body;
  }

module _ (P : Platform) (env : Env) where
  unfoldable pub send : {A : Type 0} → (P.Json → A) → Request → Exec (State P) (Option A)
  unfolding interpret
  send read r s =
      let (answer, world) = P.fetch r s.world in
      (interpret P read answer, record s { world = world })

  -- The token is read only if it is wanted; the read changes nothing.
  unfoldable pub request :
      {A : Type 0} → (P.Json → A) → String → String → Option Body → Auth → Exec (State P) (Option A)
  unfolding send build get_token
  request read method path body auth = do
    token ← get_token P env
    send read (build env method path body (wants_token auth) token)

  unfoldable pub get : {A : Type 0} → (P.Json → A) → String → Auth → Exec (State P) (Option A)
  get read path auth = request read "GET" path none auth

  unfoldable pub post :
      {A : Type 0} → (P.Json → A) → String → Body → Auth → Exec (State P) (Option A)
  post read path body auth = request read "POST" path (some body) auth

  unfoldable pub put :
      {A : Type 0} → (P.Json → A) → String → Body → Auth → Exec (State P) (Option A)
  put read path body auth = request read "PUT" path (some body) auth

  unfoldable pub patch :
      {A : Type 0} → (P.Json → A) → String → Body → Auth → Exec (State P) (Option A)
  patch read path body auth = request read "PATCH" path (some body) auth

  unfoldable pub del : {A : Type 0} → (P.Json → A) → String → Auth → Exec (State P) (Option A)
  del read path auth = request read "DELETE" path none auth
