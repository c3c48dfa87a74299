-- ===== src/Session/Laws.antt =====
-- What a page reads back of the session that a handler wrote or cleared (web/src/lib/session.ts).
use claw_compute.Prelude.{ℕ, String, ◌≡◌, some, arith, is_empty, false}
use claw_compute.Exec.{done}
use claw_compute.Platform.{Platform, Env, State, HasCookies}
use claw_compute.Session.{
  cookie_name, bypass_token, session_cookie, read_token, get_token, set_token, clear_token,
}

module _ (P : Platform) (env : Env) where
  -- A token that is set and not empty is what the next read gives, whatever the bypass says.
  pub get_token-set_token :
      (H : HasCookies P) (value : String) (age : ℕ) (s : State P)
      → is_empty value ≡ false
      → (get_token P env (set_token P env value age s).1).0 ≡ done (some value)
  unfolding get_token set_token
  get_token-set_token H value age s full =
      ground (arith, H.get-set (session_cookie env value age) s.jar)

  -- After the cookie is cleared a read gives the bypass token, and so nothing where it is off.
  get_token-clear_token :
      (H : HasCookies P) (s : State P)
      → (get_token P env (clear_token P env s).1).0 ≡ done (bypass_token env)
  unfolding get_token clear_token read_token
  get_token-clear_token H s = ground (arith, H.get-delete (cookie_name env) s.jar)
