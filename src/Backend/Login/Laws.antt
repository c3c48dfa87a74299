-- ===== src/Backend/Login/Laws.antt =====
-- Who is signed in by a link (backend/src/claw_api/auth/magic_link.py, auth/jwt.py, deps.py,
-- api/v1/auth.py).
use mathlib.Core.Path.{subst}
use claw_compute.Prelude.{
  first_of, update_first-find, lt→ltb, ℕ, ◌+◌, ◌*◌, ◌/◌, ◌≤◌, ◌<◌, ◌≡◌, ◌↔◌, refl, Option, none,
  some, List, [], ◌∷◌, ◌++◌, find, String, true, ◌==◌, arith, ap, sym, ◌∙◌,
}
use claw_compute.Backend.Models.{User, MagicLinkToken, Db}
use claw_compute.Backend.Router.{given, http}
use claw_compute.Backend.Tokens.{
  AuthSettings, Jwt, Claims, Hashing, in_hours, user_claims, encode_user_token, encode_worker_token,
  worker_claims, decode_token, user_of, worker_of, current_user, current_worker,
}
use claw_compute.Backend.Login.{
  AuthState, in_minutes, is_usable, issue_magic_link, deliver_magic_link, delivered, new_link,
  request_magic_link, use_up, user_for, consumed, answered, verify_magic_link,
}
use claw_compute.Backend.Login.Users.{IsKeyed, user_for-find, user_for-email}

module _ (jwt : Jwt) (settings : AuthSettings) where
  current_user_later :
      (user : User) (db : Db) (now later : ℕ)
      → find (λ u. u.id == user.id) db.users ≡ some user
      → now ≤ later
      → later < (now + in_hours settings.jwt_user_ttl_hours) / 1000000 * 1000000
      → current_user jwt settings later db (some (encode_user_token jwt settings user.id now))
        ≡ given user
  current_user_later user db now later row past unexpired = rw (
    jwt.decode-encode settings.jwt_secret settings.jwt_algorithm later
        (user_claims jwt settings user.id now) (omega arith) unexpired,
    row,
  )

  worker_of-user :
      (id : String) (now : ℕ) (db : Db) (read : Option Claims)
      → ((c : Claims) → read ≡ some c → c ≡ user_claims jwt settings id now)
      → worker_of jwt settings db read ≡ http 401
  worker_of-user id now db none same = refl
  worker_of-user id now db (some c) same = rw (same c refl)

  user_of-worker :
      (id : String) (now : ℕ) (db : Db) (read : Option Claims)
      → ((c : Claims) → read ≡ some c → c ≡ worker_claims jwt settings id now)
      → user_of jwt settings db read ≡ http 401
  user_of-worker id now db none same = refl
  user_of-worker id now db (some c) same = rw (same c refl)

  -- The token of a user is refused where a worker is asked for, and the token of a worker where a user
  -- is asked for: at all times, whatever the tables hold, and although one secret signs both.
  pub kinds_kept_apart :
      (id : String) (now later : ℕ) (db : Db)
      → (current_worker jwt settings later db (some (encode_user_token jwt settings id now))
          ≡ http 401)
        × (current_user jwt settings later db (some (encode_worker_token jwt settings id now))
            ≡ http 401)
  kinds_kept_apart id now later db = (
    worker_of-user id now db
        (decode_token jwt settings later (encode_user_token jwt settings id now))
        (jwt.decode_same settings.jwt_secret settings.jwt_algorithm later
          (user_claims jwt settings id now)),
    user_of-worker id now db
        (decode_token jwt settings later (encode_worker_token jwt settings id now))
        (jwt.decode_same settings.jwt_secret settings.jwt_algorithm later
          (worker_claims jwt settings id now)),
  )

module _ (jwt : Jwt) (hashing : Hashing) (lower : String → String) (settings : AuthSettings) where
  -- The link that a token stands for at a time.
  abbrev pub link_of : ℕ → String → Db → Option MagicLinkToken
  link_of now raw db = find (is_usable jwt hashing lower settings now raw) db.magic_link_tokens

  delivered-db :
      (db : Db) (log : List (String × String)) (sent : Option (List (String × String)))
      → (delivered jwt hashing lower settings db log sent).1.db ≡ db
  delivered-db db log none = refl
  delivered-db db log (some written) = refl

  pub request_magic_link-db :
      (email raw salt : String) (now : ℕ) (a : AuthState)
      → (request_magic_link jwt hashing lower settings email raw salt now a).1.db
        ≡ issue_magic_link jwt hashing lower settings email raw salt now a.db
  unfolding request_magic_link
  request_magic_link-db email raw salt now a =
      delivered-db (issue_magic_link jwt hashing lower settings email raw salt now a.db) a.log
        (deliver_magic_link jwt hashing lower settings email raw a.log)

  use_up-find :
      (now : ℕ) (raw : String) (db : Db)
      → first_of (use_up jwt hashing lower settings now raw db.magic_link_tokens)
        ≡ link_of now raw db
  use_up-find now raw db =
      update_first-find (is_usable jwt hashing lower settings now raw)
        (λ t. record t { used_at = some now }) db.magic_link_tokens

  sign_in_by :
      (new_id : String) (now later : ℕ) (db : Db) (t : MagicLinkToken)
      (used : Option (MagicLinkToken × List MagicLinkToken))
      → first_of used ≡ some t
      → IsKeyed db.users
      → find (λ u. u.id == new_id) db.users ≡ none
      → now ≤ later
      → later < (now + in_hours settings.jwt_user_ttl_hours) / 1000000 * 1000000
      → (token : String) × (user : User) × ((answered jwt hashing lower settings now
            (consumed new_id db used)).0
          ≡ given token)
        × (user.email ≡ t.email)
        × (current_user jwt settings later
              (answered jwt hashing lower settings now (consumed new_id db used)).1
              (some token)
            ≡ given user)
  sign_in_by new_id now later db t none h keyed fresh past unexpired = absurd (ground arith)
  sign_in_by new_id now later db t (some (s, rows)) h keyed fresh past unexpired =
      let user = (user_for s.email new_id db.users).0 in
      let same : s ≡ t = cc in
      (
        encode_user_token jwt settings user.id now,
        user,
        refl,
        user_for-email s.email new_id db.users (find (λ u. u.email == s.email) db.users) refl
            ∙ ap (λ (x : MagicLinkToken). x.email) same,
        current_user_later jwt settings user
            (record db { magic_link_tokens = rows; users = (user_for s.email new_id db.users).1 })
            now later
            (user_for-find s.email new_id db.users (find (λ u. u.email == s.email) db.users) refl
              keyed fresh)
            past unexpired,
      )

  -- A token that stands for a link signs in the user with the link's address, a new one if there is
  -- none: the answer is a token by which `current_user` finds that user, until it expires after the
  -- hours of the settings. The ids of the users must differ, and that of a new user be fresh.
  pub verify_magic_link-signs_in :
      (raw new_id : String) (now later : ℕ) (db : Db) (t : MagicLinkToken)
      → link_of now raw db ≡ some t
      → IsKeyed db.users
      → find (λ u. u.id == new_id) db.users ≡ none
      → now ≤ later
      → later < (now + in_hours settings.jwt_user_ttl_hours) / 1000000 * 1000000
      → (token : String) × (user : User) × ((verify_magic_link jwt hashing lower settings raw new_id
            now db).0
          ≡ given token)
        × (user.email ≡ t.email)
        × (current_user jwt settings later
              (verify_magic_link jwt hashing lower settings raw new_id now db).1
              (some token)
            ≡ given user)
  unfolding verify_magic_link
  verify_magic_link-signs_in raw new_id now later db t link =
      sign_in_by new_id now later db t
        (use_up jwt hashing lower settings now raw db.magic_link_tokens)
        (use_up-find now raw db ∙ link)

  refused_by :
      (new_id : String) (now : ℕ) (db : Db) (used : Option (MagicLinkToken × List MagicLinkToken))
      → (first_of used ≡ none)
        ↔ (answered jwt hashing lower settings now (consumed new_id db used) ≡ (http 401, db))
  refused_by new_id now db none = (λ h. refl, λ h. refl)
  refused_by new_id now db (some (t, rows)) =
      (λ h. absurd (ground arith), λ h. absurd (ground arith))

  -- A token that stands for no link, or only for links that are used or have expired, is refused with
  -- the status 401 and changes nothing; and no other is.
  pub verify_magic_link-eq-http_iff :
      (raw new_id : String) (now : ℕ) (db : Db)
      → (link_of now raw db ≡ none)
        ↔ (verify_magic_link jwt hashing lower settings raw new_id now db ≡ (http 401, db))
  unfolding verify_magic_link
  verify_magic_link-eq-http_iff raw new_id now db =
      let both =
        refused_by new_id now db (use_up jwt hashing lower settings now raw db.magic_link_tokens) in
      let same = use_up-find now raw db in (λ h. both.0 (same ∙ h), λ h. sym same ∙ both.1 h)

  find-link :
      (now : ℕ) (raw : String) (rows : List MagicLinkToken) (t : MagicLinkToken)
      → find (is_usable jwt hashing lower settings now raw) rows ≡ none
      → is_usable jwt hashing lower settings now raw t ≡ true
      → find (is_usable jwt hashing lower settings now raw) (rows ++ (t ∷ [])) ≡ some t
  find-link now raw [] t h usable = rw usable
  find-link now raw (r ∷ rows) t h usable = ground (arith, find-link now raw rows t)

  -- From the request to the signed-in user: the token of a link that is asked for signs in, within the
  -- minutes of the settings, the user with the address that it was asked for, in the lower case. No
  -- older link may verify the same token.
  pub request_magic_link-signs_in :
      (email raw salt new_id : String) (asked now later : ℕ) (a : AuthState)
      → link_of now raw a.db ≡ none
      → now < asked + in_minutes settings.magic_link_ttl_minutes
      → IsKeyed a.db.users
      → find (λ u. u.id == new_id) a.db.users ≡ none
      → now ≤ later
      → later < (now + in_hours settings.jwt_user_ttl_hours) / 1000000 * 1000000
      → let db = (request_magic_link jwt hashing lower settings email raw salt asked a).1.db in
        (token : String) × (user : User) × ((verify_magic_link jwt hashing lower settings raw new_id
            now db).0
          ≡ given token)
        × (user.email ≡ lower email)
        × (current_user jwt settings later
              (verify_magic_link jwt hashing lower settings raw new_id now db).1
              (some token)
            ≡ given user)
  request_magic_link-signs_in email raw salt new_id asked now later a other in_time keyed fresh past
        unexpired =
      let t = new_link jwt hashing lower settings email raw salt asked in
      subst
        (λ db.
          (token : String) × (user : User) × ((verify_magic_link jwt hashing lower settings raw
              new_id now db).0
            ≡ given token)
          × (user.email ≡ lower email)
          × (current_user jwt settings later
                (verify_magic_link jwt hashing lower settings raw new_id now db).1 (some token)
              ≡ given user))
        (sym (request_magic_link-db email raw salt asked a))
        (verify_magic_link-signs_in raw new_id now later
          (issue_magic_link jwt hashing lower settings email raw salt asked a.db) t
          (find-link now raw a.db.magic_link_tokens t other (
            rw
              (
                lt→ltb now (asked + in_minutes settings.magic_link_ttl_minutes) in_time,
                hashing.verify-hash salt raw,
              )
              refl))
          keyed fresh past unexpired)
