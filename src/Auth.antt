-- ===== src/Auth.antt =====
-- web/src/app/auth: the landing of a magic link (verify/route.ts), of a dead session
-- (expired/route.ts) and of a sign-out (logout/route.ts). A handler's `NextResponse.redirect(new
-- URL(path, req.url))` is the value `path`.
pub mod Laws
pub mod Login
use claw_compute.Prelude.{
  ℕ, String, Bool, true, false, Option, none, some, List, [], ◌∷◌, eqb, if◌then◌else◌, ◌*◌, inl,
  inr,
}
use claw_compute.Exec.{
  Exec, Exception, api_error, error, thrown_value, ◌>>=◌, ◌>>◌, pure, raise, attempt,
}
use claw_compute.Platform.{Platform, Env, State, str}
use claw_compute.Session.{truthy, get_token, set_token, clear_token}
use claw_compute.Api.{unset, given, get, post, defined}

module _ (P : Platform) (env : Env) where
  -- 24 hours, in seconds.
  abbrev session_age : ℕ
  session_age = 60 * 60 * 24

  -- The `try` block: exchange the magic token and set the cookie.
  unfoldable pub sign_in : String → Exec (State P) (Unit {0})
  unfolding post set_token
  sign_in token = do
    answer ← post P env P.as_token "/v1/auth/verify" (("token", str token) ∷ []) (given false)
    access_token ← defined P answer
    set_token P env access_token session_age

  -- The link was used before: a session that still works is a successful sign-in.
  unfoldable pub reuse : Exec (State P) String
  unfolding get get_token
  reuse = do
    token ← get_token P env
    elim (truthy token) [
      | none ↦ pure "/auth/login?error=invalid-or-expired-link"
      | some t ↦ do
        me ← attempt (get P env P.as_user "/v1/me" unset)
        elim me [
          | inr user ↦ pure "/dashboard"
          | inl e ↦ pure "/auth/login?error=invalid-or-expired-link"
        ]
    ]

  failed : Exception → Exec (State P) String
  unfolding reuse
  failed (api_error status message) =
      if eqb status 401 then reuse else raise (api_error status message)
  failed (error message) = raise (error message)
  failed thrown_value = raise thrown_value

  -- `GET /auth/verify?token=…`
  unfoldable pub verify : Option String → Exec (State P) String
  unfolding sign_in failed
  verify token = elim (truthy token) [
    | none ↦ pure "/auth/login"
    | some t ↦ do
      signed ← attempt (sign_in t)
      elim signed [ inr _ ↦ pure "/dashboard" | inl e ↦ failed e ]
  ]

  -- `GET /auth/expired`
  unfoldable pub expired : Exec (State P) String
  unfolding clear_token
  expired = clear_token P env >> pure "/auth/login?error=session-expired"

  -- `POST /auth/logout`
  unfoldable pub logout : Exec (State P) String
  unfolding clear_token
  logout = clear_token P env >> pure "/"
