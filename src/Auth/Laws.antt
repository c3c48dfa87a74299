-- ===== src/Auth/Laws.antt =====
-- Who gets into the dashboard by a magic link, and how a dead session ends (web/src/app/auth).
use claw_compute.ApiTypes.{UserOut}
use claw_compute.Prelude.{
  Bool-cases, eqb, String, ◌≡◌, ◌≢◌, refl, ◌↔◌, ◌⊎◌, inl, inr, true, false, Option, none, some, [],
  ◌∷◌, arith, is_empty, eq_iff,
}
use claw_compute.Exec.{Outcome, done, throw, api_error}
use claw_compute.Platform.{Platform, Env, State, HasCookies, Fetched, str}
use claw_compute.Session.{truthy, read_token, get_token, set_token}
use claw_compute.Session.Laws.{get_token-set_token}
use claw_compute.Api.{build, interpret, request}
use claw_compute.Auth.{verify}

refused_path : ◌≢◌ {A = String} "/auth/login?error=invalid-or-expired-link" "/dashboard"
refused_path = ground (arith, eq_iff "/auth/login?error=invalid-or-expired-link" "/dashboard")

module _ (P : Platform) (env : Env) (t : String) (s : State P) where
  -- The answer to the exchange of the magic token, and the world after it.
  abbrev pub exchange : Fetched P.Json × P.World
  exchange =
      P.fetch (build env "POST" "/v1/auth/verify" (some (("token", str t) ∷ [])) false none) s.world

  -- The answer to `GET /v1/me` under the session of the request, after a failed exchange.
  abbrev pub probe : Fetched P.Json
  probe = (P.fetch (build env "GET" "/v1/me" none true (read_token P env s.jar)) exchange.1).0

  abbrev pub IsExchanged : Type 0
  IsExchanged = (token : String) × (interpret P P.as_token exchange.0 ≡ done (some token))

  -- The link is used up, and the session that the browser sends is accepted by the API.
  pub record IsSignedIn : Type 0 where
    pub message : String
    pub used_up : interpret P P.as_token exchange.0 ≡ throw (api_error 401 message)
    pub session : String
    pub sent : truthy (read_token P env s.jar) ≡ some session
    pub me : Option UserOut
    pub accepted : interpret P P.as_user probe ≡ done me

  pub verify_enters :
      is_empty t ≡ false
      → IsExchanged ⊎ IsSignedIn
      → (verify P env (some t) s).0 ≡ done "/dashboard"
  unfolding verify request
  verify_enters full (inl x) = ground arith
  verify_enters full (inr x) = ground arith

  only_entered :
      (x : Outcome (Option String)) (y : Outcome (Option UserOut)) (o : Option String)
      → is_empty t ≡ false
      → interpret P P.as_token exchange.0 ≡ x
      → interpret P P.as_user probe ≡ y
      → truthy (read_token P env s.jar) ≡ o
      → (verify P env (some t) s).0 ≡ done "/dashboard"
      → IsExchanged ⊎ IsSignedIn
  unfolding verify request
  only_entered (done (some token)) y o full x_eq y_eq o_eq h = inl (token, x_eq)
  only_entered (done none) y o full x_eq y_eq o_eq h = absurd (ground arith)
  only_entered (throw (api_error status message)) (done me) (some session) full x_eq y_eq o_eq h =
      elim (Bool-cases (eqb status 401)) [
        | inl is_401 ↦ inr (record {
          message = message;
          used_up = ground arith;
          session = session;
          sent = o_eq;
          me = me;
          accepted = y_eq;
        })
        | inr not_401 ↦ absurd (ground arith)
      ]
  only_entered x y o full x_eq y_eq o_eq h = absurd (ground (arith, refused_path))

  -- With a token in its link the landing leads to the dashboard exactly if the API exchanges the token,
  -- or refuses it with 401 while the session that the browser already has is accepted by `/v1/me`.
  pub verify-eq-dashboard_iff :
      is_empty t ≡ false
      → ((verify P env (some t) s).0 ≡ done "/dashboard") ↔ (IsExchanged ⊎ IsSignedIn)
  verify-eq-dashboard_iff full = (only_entered _ _ _ full refl refl refl, verify_enters full)

  -- A token that the API exchanges replaces the session: whatever the browser sent, the token that the
  -- next page reads is the new one.
  verify_replaces :
      (H : HasCookies P) (token : String)
      → is_empty t ≡ false
      → is_empty token ≡ false
      → interpret P P.as_token exchange.0 ≡ done (some token)
      → (get_token P env (verify P env (some t) s).1).0 ≡ done (some token)
  unfolding verify request set_token
  verify_replaces H token full named x =
      ground
        (arith, get_token-set_token P env H token 86400 (record s { world = exchange.1 }) named)
