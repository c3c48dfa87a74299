-- ===== src/Backend/Login.antt =====
-- backend/src/claw_api/auth/magic_link.py, api/v1/auth.py: the sign-in by a link that is sent by mail.
-- What chance gives (the token, the salt of its hash, the id of a new user) are arguments.
pub mod Counting
pub mod Users
pub mod Laws
use claw_compute.Prelude.{
  ℕ, ◌+◌, ◌*◌, Bool, true, false, ◌&&◌, Option, none, some, List, [], ◌∷◌, ◌++◌, map, find, String,
  ◌==◌, ltb, update_first, if◌then◌else◌,
}
use claw_compute.Backend.Models.{User, Supplier, MagicLinkToken, Db}
use claw_compute.Backend.Router.{Answer, given, http}
use claw_compute.Backend.Tokens.{AuthSettings, Jwt, Hashing, encode_user_token}

-- The tables, and the mails that were written to the console instead of being sent.
pub record AuthState : Type 0 where
  pub db : Db
  pub log : List (String × String)

abbrev is_none : {A : Type 0} → Option A → Bool
is_none none = true
is_none (some a) = false

abbrev pub in_minutes : ℕ → ℕ
in_minutes n = n * 60000000

-- The rows that the query of `consume_magic_link` selects.
abbrev pub is_candidate : ℕ → MagicLinkToken → Bool
is_candidate now t = is_none t.used_at && ltb now t.expires_at

-- The user is the one that the request's token names.
unfoldable pub set_wallet : (wallet_address : String) → User → Db → User × Db
set_wallet wallet_address user db =
    let changed = record user { wallet_address = some wallet_address } in
    (changed, record db { users = map (λ u. if u.id == user.id then changed else u) db.users })

-- Whether the user is a supplier; a user is always a consumer.
abbrev pub my_role : User → Db → Bool × Bool
my_role user db = elim (find (λ s. s.user_id == user.id) db.suppliers) [
  | none ↦ (false, true)
  | some supplier ↦ (true, true)
]

-- The user with the address, or a new one.
abbrev pub user_for : String → (new_id : String) → List User → User × List User
user_for email new_id users = elim (find (λ u. u.email == email) users) [
  | some user ↦ (user, users)
  | none ↦
      let user : User = record { id = new_id; email = email; wallet_address = none } in
      (user, users ++ (user ∷ []))
]

abbrev pub consumed :
    (new_id : String) → Db → Option (MagicLinkToken × List MagicLinkToken) → Option User × Db
consumed new_id db none = (none, db)
consumed new_id db (some (used, rows)) =
    let (user, users) = user_for used.email new_id db.users in
    (some user, record db { magic_link_tokens = rows; users = users })

module _ (jwt : Jwt) (hashing : Hashing) (lower : String → String) (settings : AuthSettings) where
  abbrev pub new_link : (email raw salt : String) → ℕ → MagicLinkToken
  new_link email raw salt now = record {
    email = lower email;
    token_hash = hashing.hash_token salt raw;
    expires_at = now + in_minutes settings.magic_link_ttl_minutes;
    used_at = none;
  }

  abbrev pub issue_magic_link : (email raw salt : String) → ℕ → Db → Db
  issue_magic_link email raw salt now db = record db {
    magic_link_tokens = db.magic_link_tokens ++ (new_link email raw salt now ∷ []);
  }

  -- `none` is the `NotImplementedError`.
  abbrev pub deliver_magic_link :
      (email token : String) → List (String × String) → Option (List (String × String))
  deliver_magic_link email token log =
      if settings.magic_link_delivery == "console"
      then some (log ++ ((email, token) ∷ []))
      else none

  abbrev pub delivered :
      Db → List (String × String) → Option (List (String × String)) → Option String × AuthState
  delivered db log none = (none, record { db = db; log = log })
  delivered db log (some written) = (some "sent", record { db = db; log = written })

  -- The row is committed before the mail is sent.
  unfoldable pub request_magic_link :
      (email raw salt : String) → ℕ → AuthState → Option String × AuthState
  request_magic_link email raw salt now a =
      delivered (issue_magic_link email raw salt now a.db) a.log
        (deliver_magic_link email raw a.log)

  -- A candidate that the token verifies against.
  abbrev pub is_usable : ℕ → String → MagicLinkToken → Bool
  is_usable now raw t = is_candidate now t && hashing.verify_token raw t.token_hash

  -- The loop over the candidates: the first that the token verifies against is used up.
  abbrev pub use_up :
      ℕ → String → List MagicLinkToken → Option (MagicLinkToken × List MagicLinkToken)
  use_up now raw = update_first (is_usable now raw) (λ t. record t { used_at = some now })

  abbrev pub consume_magic_link : (raw new_id : String) → ℕ → Db → Option User × Db
  consume_magic_link raw new_id now db = consumed new_id db (use_up now raw db.magic_link_tokens)

  abbrev pub answered : ℕ → Option User × Db → Answer String × Db
  answered now (none, db) = (http 401, db)
  answered now (some user, db) = (given (encode_user_token jwt settings user.id now), db)

  -- Answers the `access_token`.
  unfoldable pub verify_magic_link : (raw new_id : String) → ℕ → Db → Answer String × Db
  verify_magic_link raw new_id now db = answered now (consume_magic_link raw new_id now db)
