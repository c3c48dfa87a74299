-- ===== src/Backend/Tokens.antt =====
-- backend/src/claw_api/auth/jwt.py, deps.py: the tokens that the API hands out, and whom it takes a
-- request to come from. The signing and the hashing are packages; their documented behaviour is named
-- here. A time is a number of microseconds.
use claw_compute.Prelude.{
  ℕ, ◌+◌, ◌*◌, ◌/◌, ◌≤◌, ◌<◌, ◌≡◌, Bool, true, false, not, Option, none, some, find, String, ◌==◌,
  is_empty, if◌then◌else◌,
}
use claw_compute.Backend.Models.{User, WorkerStatus, waiting, online, offline, disabled, Worker, Db}
use claw_compute.Backend.Router.{Answer, given, http}

-- The settings that the authentication reads.
pub record AuthSettings : Type 0 where
  pub jwt_secret : String
  pub jwt_algorithm : String
  pub jwt_user_ttl_hours : ℕ
  pub jwt_worker_ttl_days : ℕ
  pub magic_link_ttl_minutes : ℕ
  pub magic_link_delivery : String

pub record Claims : Type 0 where
  pub sub : String
  pub kind : String
  pub iat : ℕ
  pub exp : ℕ

-- PyJWT, under one secret and algorithm: a token that was issued before and that has not expired reads
-- back, and no token reads back as other claims than its own.
pub record Jwt : Type 0 where
  pub encode : (secret algorithm : String) → Claims → String
  pub decode : (secret algorithm : String) → (now : ℕ) → String → Option Claims
  pub decode-encode :
      (secret algorithm : String) (now : ℕ) (c : Claims)
      → c.iat * 1000000 ≤ now
      → now < c.exp * 1000000
      → decode secret algorithm now (encode secret algorithm c) ≡ some c
  pub decode_same :
      (secret algorithm : String) (now : ℕ) (c d : Claims)
      → decode secret algorithm now (encode secret algorithm c) ≡ some d
      → d ≡ c

-- Argon2: a hash is a text that starts with the name of the method, and the text that was hashed
-- verifies.
pub record Hashing : Type 0 where
  pub hash_token : (salt plain : String) → String
  pub verify_token : (plain hashed : String) → Bool
  pub hash_nonempty : (salt plain : String) → is_empty (hash_token salt plain) ≡ false
  pub verify-hash : (salt plain : String) → verify_token plain (hash_token salt plain) ≡ true

abbrev pub is_disabled : WorkerStatus → Bool
is_disabled disabled = true
is_disabled waiting = false
is_disabled online = false
is_disabled offline = false

abbrev pub in_hours : ℕ → ℕ
in_hours n = n * 3600000000

abbrev pub in_days : ℕ → ℕ
in_days n = n * 86400000000

module _ (jwt : Jwt) (settings : AuthSettings) where
  abbrev pub user_claims : String → ℕ → Claims
  user_claims user_id now = record {
    sub = user_id;
    kind = "user";
    iat = now / 1000000;
    exp = (now + in_hours settings.jwt_user_ttl_hours) / 1000000;
  }

  abbrev pub worker_claims : String → ℕ → Claims
  worker_claims worker_id now = record {
    sub = worker_id;
    kind = "worker";
    iat = now / 1000000;
    exp = (now + in_days settings.jwt_worker_ttl_days) / 1000000;
  }

  abbrev pub encode_user_token : String → ℕ → String
  encode_user_token user_id now =
      jwt.encode settings.jwt_secret settings.jwt_algorithm (user_claims user_id now)

  abbrev pub encode_worker_token : String → ℕ → String
  encode_worker_token worker_id now =
      jwt.encode settings.jwt_secret settings.jwt_algorithm (worker_claims worker_id now)

  -- `none` is an `InvalidTokenError`.
  abbrev pub decode_token : ℕ → String → Option Claims
  decode_token = jwt.decode settings.jwt_secret settings.jwt_algorithm

  abbrev pub user_of : Db → Option Claims → Answer User
  user_of db none = http 401
  user_of db (some payload) =
      if not (payload.kind == "user")
      then http 401
      else elim (find (λ u. u.id == payload.sub) db.users) [
        | none ↦ http 401
        | some user ↦ given user
      ]

  -- `creds` is the bearer token of the request, if it has one.
  abbrev pub current_user : ℕ → Db → (creds : Option String) → Answer User
  current_user now db none = http 401
  current_user now db (some token) = user_of db (decode_token now token)

  abbrev pub worker_of : Db → Option Claims → Answer Worker
  worker_of db none = http 401
  worker_of db (some payload) =
      if not (payload.kind == "worker")
      then http 401
      else elim (find (λ k. k.id == payload.sub) db.workers) [
        | none ↦ http 401
        | some worker ↦ if is_disabled worker.status then http 401 else given worker
      ]

  abbrev pub current_worker : ℕ → Db → (creds : Option String) → Answer Worker
  current_worker now db none = http 401
  current_worker now db (some token) = worker_of db (decode_token now token)
