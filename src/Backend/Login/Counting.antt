-- ===== src/Backend/Login/Counting.antt =====
-- The links of a run of the authentication (backend/src/claw_api/auth/magic_link.py, api/v1/auth.py).
use claw_compute.Prelude.{
  ℕ, ◌+◌, ◌≡◌, refl, Option, none, some, List, [], ◌∷◌, ◌++◌, String, arith, if◌then◌else◌, ap,
}
use claw_compute.Backend.Models.{User, MagicLinkToken, Db}
use claw_compute.Backend.Router.{Answer, given, http, no_result_found}
use claw_compute.Backend.Tokens.{AuthSettings, Jwt, Hashing, current_user}
use claw_compute.Backend.Login.Laws.{request_magic_link-db}
use claw_compute.Backend.Login.{
  AuthState, is_none, new_link, request_magic_link, use_up, consumed, answered, verify_magic_link,
  set_wallet,
}

-- A request to the authentication routes.
pub data Request : Type 0 where
  link : (email raw salt : String) → Request
  exchange : (raw new_id : String) → Request
  wallet : (creds : Option String) (address : String) → Request

abbrev pub unused : List MagicLinkToken → ℕ
unused [] = 0
unused (t ∷ rows) = (if is_none t.used_at then 1 else 0) + unused rows

abbrev pub links : List (ℕ × Request) → ℕ
links [] = 0
links ((now, link email raw salt) ∷ rest) = 1 + links rest
links ((now, exchange raw new_id) ∷ rest) = links rest
links ((now, wallet creds address) ∷ rest) = links rest

links-cons :
    (now : ℕ) (r : Request) (rest : List (ℕ × Request))
    → links ((now, r) ∷ rest) ≡ links ((now, r) ∷ []) + links rest
links-cons now (link email raw salt) rest = omega arith
links-cons now (exchange raw new_id) rest = omega arith
links-cons now (wallet creds address) rest = omega arith

unused-append :
    (rows : List MagicLinkToken) (t : MagicLinkToken)
    → t.used_at ≡ none
    → unused (rows ++ (t ∷ [])) ≡ 1 + unused rows
unused-append [] t h = ground arith
unused-append (r ∷ rows) t h = omega (arith, unused-append rows t h)

module _ (jwt : Jwt) (hashing : Hashing) (lower : String → String) (settings : AuthSettings) where
  -- 1 for an answer with a token.
  abbrev granted : Answer String → ℕ
  granted (given token) = 1
  granted (http n) = 0
  granted no_result_found = 0

  abbrev walleted : String → AuthState → Answer User → AuthState
  walleted address a (given user) = record a { db = (set_wallet address user a.db).1 }
  walleted address a (http n) = a
  walleted address a no_result_found = a

  -- The request at its time: the tokens that it hands out, and the state after it.
  abbrev pub serve : ℕ → Request → AuthState → ℕ × AuthState
  serve now (link email raw salt) a =
      (0, (request_magic_link jwt hashing lower settings email raw salt now a).1)
  serve now (exchange raw new_id) a =
      let (answer, db) = verify_magic_link jwt hashing lower settings raw new_id now a.db in
      (granted answer, record a { db = db })
  serve now (wallet creds address) a =
      (0, walleted address a (current_user jwt settings now a.db creds))

  -- The requests in their order: the tokens that were handed out, and the last state.
  unfoldable pub run : List (ℕ × Request) → AuthState → ℕ × AuthState
  run [] a = (0, a)
  run ((now, r) ∷ rest) a =
      let (n, a') = serve now r a in let (m, a'') = run rest a' in (n + m, a'')

  use_up-unused :
      (now : ℕ) (raw : String) (rows : List MagicLinkToken) (t : MagicLinkToken)
      (rest : List MagicLinkToken)
      → use_up jwt hashing lower settings now raw rows ≡ some (t, rest)
      → 1 + unused rest ≡ unused rows
  use_up-unused now raw [] t rest h = ground arith
  use_up-unused now raw (r ∷ rows) t rest h = grind (arith, use_up-unused now raw rows)

  consumed-unused :
      (now : ℕ) (new_id : String) (db : Db) (o : Option (MagicLinkToken × List MagicLinkToken))
      (raw : String)
      → use_up jwt hashing lower settings now raw db.magic_link_tokens ≡ o
      → granted (answered jwt hashing lower settings now (consumed new_id db o)).0
          + unused
              (answered jwt hashing lower settings now (consumed new_id db o)).1.magic_link_tokens
        ≡ unused db.magic_link_tokens
  consumed-unused now new_id db none raw h = omega arith
  consumed-unused now new_id db (some (t, rest)) raw h =
      omega (arith, use_up-unused now raw db.magic_link_tokens t rest h)

  walleted-links :
      (address : String) (a : AuthState) (who : Answer User)
      → (walleted address a who).db.magic_link_tokens ≡ a.db.magic_link_tokens
  unfolding set_wallet
  walleted-links address a (given user) = refl
  walleted-links address a (http n) = refl
  walleted-links address a no_result_found = refl

  serve_counts :
      (now : ℕ) (r : Request) (a : AuthState)
      → (serve now r a).0 + unused (serve now r a).1.db.magic_link_tokens
        ≡ links ((now, r) ∷ []) + unused a.db.magic_link_tokens
  unfolding verify_magic_link
  serve_counts now (link email raw salt) a = omega (
    arith,
    ap (λ (d : Db). unused d.magic_link_tokens)
        (request_magic_link-db jwt hashing lower settings email raw salt now a),
    unused-append a.db.magic_link_tokens (new_link jwt hashing lower settings email raw salt now)
        refl,
  )
  serve_counts now (exchange raw new_id) a = omega (
    arith,
    consumed-unused now new_id a.db
        (use_up jwt hashing lower settings now raw a.db.magic_link_tokens) raw refl,
  )
  serve_counts now (wallet creds address) a =
      omega (arith, ap unused (walleted-links address a (current_user jwt settings now a.db creds)))

  -- Links are conserved over every run of the authentication routes: the tokens that were handed
  -- out and the links that are still unused are together as many as the links that were asked for
  -- and those that were unused before.
  pub run_conserves_links :
      (requests : List (ℕ × Request)) (a : AuthState)
      → (run requests a).0 + unused (run requests a).1.db.magic_link_tokens
        ≡ links requests + unused a.db.magic_link_tokens
  unfolding run
  run_conserves_links [] a = refl
  run_conserves_links ((now, r) ∷ rest) a = omega (
    arith,
    links-cons now r rest,
    serve_counts now r a,
    run_conserves_links rest (serve now r a).1,
  )
