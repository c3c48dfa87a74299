-- ===== src/Backend/Workers/Enrolment.antt =====
-- From a provisioning token to a worker that is let in (backend/src/claw_api/api/v1/workers.py,
-- auth/jwt.py, deps.py).
use claw_compute.Prelude.{
  ℕ, ◌+◌, ◌*◌, ◌/◌, ◌≤◌, ◌<◌, ◌≡◌, refl, ◌∙◌, ap, Bool, true, false, Option, none, some, List, [],
  ◌∷◌, find, String, arith, update_first, rest_or, first_of, update_first-find, Bool-cases, inl,
  inr, eq_refl,
}
use claw_compute.Backend.Models.{online, Worker, Db}
use claw_compute.Backend.Router.{given}
use claw_compute.Backend.Tokens.{
  AuthSettings, Jwt, Hashing, in_days, worker_claims, is_disabled, encode_worker_token,
  current_worker,
}
use claw_compute.Backend.Workers.{
  Registration, attested, registered, is_matched, registration_of, with_workers, register_worker,
}
use claw_compute.Backend.Workers.Barred.{worker_at, worker_at-kept, registered-id}

attested-status :
    (key : Option String) (now : ℕ) (w : Worker)
    → w.status ≡ online
    → is_disabled (attested key now w).status ≡ false
attested-status none now w h = ground arith
attested-status (some key) now w h = ground arith

registered-status :
    (payload : Registration) (now : ℕ) (w : Worker)
    → is_disabled (registered payload now w).status ≡ false
registered-status payload now w =
    attested-status payload.pubkey_x25519 now
      (record w {
        status = online;
        machine_info = payload.machine_info;
        provisioning_token_hash = none;
        last_seen_at = some now;
      })
      refl

found_passes :
    (p : Worker → Bool) (rows : List Worker) (w : Worker) → find p rows ≡ some w → p w ≡ true
found_passes p [] w h = ground arith
found_passes p (r ∷ rows) w h = elim (Bool-cases (p r)) [
  | inl passes ↦ ground arith
  | inr fails ↦ found_passes p rows w (ground arith)
]

-- The row that is changed is found, changed, under its id.
worker_at-changed :
    (p : Worker → Bool) (f : Worker → Worker) (keep : (x : Worker) → (f x).id ≡ x.id)
    (rows : List Worker) (w : Worker)
    → find p rows ≡ some w
    → worker_at w.id rows ≡ some w
    → worker_at w.id (rest_or rows (update_first p f rows)) ≡ some (f w)
worker_at-changed p f keep [] w found own = ground arith
worker_at-changed p f keep (r ∷ rows) w found own = elim (Bool-cases (p r)) [
  | inl passes ↦ rw passes (ground (arith, keep r, eq_refl r.id))
  | inr fails ↦ rw fails (
      ground (
        arith,
        found_passes p (r ∷ rows) w found,
        worker_at-kept w.id r rows (update_first p f rows),
        worker_at-changed p f keep rows w,
      ))
]

module _ (jwt : Jwt) (hashing : Hashing) (settings : AuthSettings) where
  -- The row that waits for a provisioning token.
  abbrev pub waiting_for : String → Db → Option Worker
  waiting_for token db = find (is_matched jwt hashing settings token) db.workers

  current_worker_later :
      (id : String) (w : Worker) (db : Db) (now later : ℕ)
      → worker_at id db.workers ≡ some w
      → is_disabled w.status ≡ false
      → now ≤ later
      → later < (now + in_days settings.jwt_worker_ttl_days) / 1000000 * 1000000
      → current_worker jwt settings later db (some (encode_worker_token jwt settings id now))
        ≡ given w
  current_worker_later id w db now later row in_ past unexpired = rw (
    jwt.decode-encode settings.jwt_secret settings.jwt_algorithm later
        (worker_claims jwt settings id now) (omega arith) unexpired,
    row,
    in_,
  )

  registered_by :
      (payload : Registration) (now later : ℕ) (db : Db) (w : Worker)
      (changed : Option (Worker × List Worker))
      → first_of changed ≡ some w
      → worker_at w.id (rest_or db.workers changed) ≡ some (registered payload now w)
      → now ≤ later
      → later < (now + in_days settings.jwt_worker_ttl_days) / 1000000 * 1000000
      → (token : String) × ((registration_of jwt hashing settings payload now db changed).0
          ≡ given token)
        × (current_worker jwt settings later
              (registration_of jwt hashing settings payload now db changed).1
              (some token)
            ≡ given (registered payload now w))
  registered_by payload now later db w none h row past unexpired = absurd (ground arith)
  registered_by payload now later db w (some (k, rows)) h row past unexpired =
      let same : k ≡ w = cc in
      (
        encode_worker_token jwt settings w.id now,
        ap (λ (x : Worker). given (encode_worker_token jwt settings x.id now)) same,
        current_worker_later w.id (registered payload now w) (with_workers rows db) now later row
            (registered-status payload now w) past unexpired,
      )

  -- A provisioning token that a row waits for registers that row: the answer is a token by which
  -- `current_worker` finds the row as the registration has left it, until the token expires after the
  -- days of the settings. The row must be the one of its id.
  pub register_worker-lets_in :
      (payload : Registration) (now later : ℕ) (db : Db) (w : Worker)
      → waiting_for payload.provisioning_token db ≡ some w
      → worker_at w.id db.workers ≡ some w
      → now ≤ later
      → later < (now + in_days settings.jwt_worker_ttl_days) / 1000000 * 1000000
      → (token : String) × ((register_worker jwt hashing settings payload now db).0 ≡ given token)
        × (current_worker jwt settings later
              (register_worker jwt hashing settings payload now db).1
              (some token)
            ≡ given (registered payload now w))
  unfolding register_worker
  register_worker-lets_in payload now later db w found own =
      let p = is_matched jwt hashing settings payload.provisioning_token in
      let f = registered payload now in
      registered_by payload now later db w (update_first p f db.workers)
        (update_first-find p f db.workers ∙ found)
        (worker_at-changed p f (registered-id payload now) db.workers w found own)
