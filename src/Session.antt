-- ===== src/Session.antt =====
-- web/src/lib/session.ts: the session token in a cookie, with the development bypass.
pub mod Laws
use claw_compute.Prelude.{
  ℕ, String, Bool, true, false, Option, none, some, ◌==◌, is_empty, if◌then◌else◌,
}
use claw_compute.Exec.{Exec, done}
use claw_compute.Platform.{Platform, Env, State, Cookie}

-- `x ?? d`
abbrev pub default_to : String → Option String → String
default_to d none = d
default_to d (some s) = s

-- A text is truthy if it is there and not empty.
abbrev pub truthy : Option String → Option String
truthy none = none
truthy (some s) = if is_empty s then none else some s

abbrev pub is : String → Option String → Bool
is t none = false
is t (some s) = s == t

module _ (env : Env) where
  unfoldable pub cookie_name : String
  cookie_name = default_to "claw_session" env.session_cookie_name

  -- The token of the development bypass, if it is on.
  unfoldable pub bypass_token : Option String
  bypass_token = if is "1" env.claw_dev_bypass_auth then truthy env.claw_dev_jwt else none

  unfoldable pub session_cookie : String → ℕ → Cookie
  unfolding cookie_name
  session_cookie value max_age_seconds = record {
    name = cookie_name;
    value = value;
    http_only = true;
    secure = is "production" env.node_env;
    same_site = "lax";
    path = "/";
    max_age = max_age_seconds;
  }

module _ (P : Platform) (env : Env) where
  unfoldable pub read_token : P.Jar → Option String
  unfolding cookie_name bypass_token
  read_token jar = elim (truthy (P.get_cookie (cookie_name env) jar)) [
    | some value ↦ some value
    | none ↦ bypass_token env
  ]

  unfoldable pub get_token : Exec (State P) (Option String)
  unfolding read_token
  get_token s = (done (read_token s.jar), s)

  unfoldable pub set_token : String → ℕ → Exec (State P) (Unit {0})
  unfolding session_cookie
  set_token value max_age_seconds s =
      (done tt, record s { jar = P.set_cookie (session_cookie env value max_age_seconds) s.jar })

  unfoldable pub clear_token : Exec (State P) (Unit {0})
  unfolding cookie_name
  clear_token s = (done tt, record s { jar = P.delete_cookie (cookie_name env) s.jar })
