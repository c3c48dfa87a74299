-- ===== src/Backend/Workers/Once.antt =====
-- A provisioning token registers one worker, once (backend/src/claw_api/api/v1/workers.py).
use mathlib.Core.Path.{subst}
use claw_compute.Prelude.{
  ℕ, ◌≡◌, ◌↔◌, refl, sym, ◌∙◌, ap, Bool, true, false, Option, none, some, List, [], ◌∷◌, ◌++◌, find,
  String, arith, update_first, rest_or, first_of, update_first-find, Bool-cases, inl, inr,
}
use claw_compute.Backend.Models.{User, Supplier, online, Worker, Db}
use claw_compute.Backend.Router.{Answer, given, http}
use claw_compute.Backend.Tokens.{AuthSettings, Jwt, Hashing, encode_worker_token}
use claw_compute.Backend.Workers.{
  supplier_for, Registration, new_worker, attested, registered, provisioned,
  issue_provisioning_token, is_matched, registration_of, with_workers, register_worker,
}
use claw_compute.Backend.Workers.Sound.{registration_of-workers}
use claw_compute.Backend.Workers.Enrolment.{waiting_for}

find-append :
    (p : Worker → Bool) (rows : List Worker) (w : Worker)
    → find p rows ≡ none
    → p w ≡ true
    → find p (rows ++ (w ∷ [])) ≡ some w
find-append p [] w h passes = rw passes
find-append p (r ∷ rows) w h passes = ground (arith, find-append p rows w)

find-kept :
    (p : Worker → Bool) (r : Worker) (rows : List Worker) (o : Option (Worker × List Worker))
    → p r ≡ false
    → find p (rest_or (r ∷ rows) (elim o [ none ↦ none | some (y, ys) ↦ some (y, r ∷ ys) ]))
      ≡ find p (rest_or rows o)
find-kept p r rows none fails = rw fails
find-kept p r rows (some (y, ys)) fails = rw fails

-- If only the last row passes a test, and a changed row does not, none is left that does.
find-changed :
    (p : Worker → Bool) (f : Worker → Worker) (fresh : (x : Worker) → p (f x) ≡ false)
    (rows : List Worker) (w : Worker)
    → find p rows ≡ none
    → p w ≡ true
    → find p (rest_or (rows ++ (w ∷ [])) (update_first p f (rows ++ (w ∷ [])))) ≡ none
find-changed p f fresh [] w h passes = rw (passes, fresh w)
find-changed p f fresh (r ∷ rows) w h passes = elim (Bool-cases (p r)) [
  | inl early ↦ absurd (ground arith)
  | inr fails ↦ rw fails (
      find-kept p r (rows ++ (w ∷ [])) (update_first p f (rows ++ (w ∷ []))) fails
      ∙ find-changed p f fresh rows w (ground arith) passes)
]

module _ (jwt : Jwt) (hashing : Hashing) (settings : AuthSettings) where
  refused_by :
      (payload : Registration) (now : ℕ) (db : Db) (o : Option (Worker × List Worker))
      → (first_of o ≡ none)
        ↔ (registration_of jwt hashing settings payload now db o ≡ (http 401, db))
  refused_by payload now db none = (λ h. refl, λ h. refl)
  refused_by payload now db (some (w, rows)) =
      (λ h. absurd (ground arith), λ h. absurd (ground arith))

  attested_unmatched :
      (token : String) (key : Option String) (now : ℕ) (w : Worker)
      → w.provisioning_token_hash ≡ none
      → is_matched jwt hashing settings token (attested key now w) ≡ false
  attested_unmatched token none now w h = ground arith
  attested_unmatched token (some key) now w h = ground arith

  registered_unmatched :
      (token : String) (payload : Registration) (now : ℕ) (w : Worker)
      → is_matched jwt hashing settings token (registered payload now w) ≡ false
  registered_unmatched token payload now w =
      attested_unmatched token payload.pubkey_x25519 now
        (record w {
          status = online;
          machine_info = payload.machine_info;
          provisioning_token_hash = none;
          last_seen_at = some now;
        })
        refl

  new_worker_matched :
      (new_id supplier_id name salt raw : String)
      → is_matched jwt hashing settings raw
          (new_worker new_id supplier_id name (hashing.hash_token salt raw))
        ≡ true
  new_worker_matched new_id supplier_id name salt raw =
      rw (hashing.hash_nonempty salt raw, hashing.verify-hash salt raw)

  register_answer :
      (payload : Registration) (now : ℕ) (db : Db) (w : Worker) (o : Option (Worker × List Worker))
      → first_of o ≡ some w
      → (registration_of jwt hashing settings payload now db o).0
        ≡ given (encode_worker_token jwt settings w.id now)
  register_answer payload now db w none h = absurd (ground arith)
  register_answer payload now db w (some (k, rows)) h =
      let same : k ≡ w = cc in
      ap (λ (x : Worker). given (encode_worker_token jwt settings x.id now)) same

  abbrev Once : String → String → Registration → Registration → ℕ → ℕ → Db → Type 0
  Once raw id first second now later db =
      let answer =
        register_worker jwt hashing settings (record first { provisioning_token = raw }) now db in
      (answer.0 ≡ given (encode_worker_token jwt settings id now))
      × (register_worker jwt hashing settings (record second { provisioning_token = raw }) later
            answer.1
          ≡ (http 401, answer.1))

  provisioned-Once :
      (raw : String) (first second : Registration) (now later : ℕ) (db : Db) (w : Worker)
      → waiting_for jwt hashing settings raw db ≡ none
      → is_matched jwt hashing settings raw w ≡ true
      → Once raw w.id first second now later (with_workers (db.workers ++ (w ∷ [])) db)
  unfolding register_worker
  provisioned-Once raw first second now later db w free passes =
      let p = is_matched jwt hashing settings raw in
      let payload = record first { provisioning_token = raw } in
      let next = record second { provisioning_token = raw } in
      let f = registered payload now in
      let rows = db.workers ++ (w ∷ []) in
      let issued = with_workers rows db in
      let done = registration_of jwt hashing settings payload now issued (update_first p f rows) in
      (
        register_answer payload now issued w (update_first p f rows)
            (update_first-find p f rows ∙ find-append p db.workers w free passes),
        (refused_by next later done.1 (update_first p (registered next later) done.1.workers)).0 (
            update_first-find p (registered next later) done.1.workers
            ∙ ap (find p) (
                registration_of-workers jwt hashing settings payload now issued
                  (update_first p f rows))
            ∙ find-changed p f (registered_unmatched raw payload now) db.workers w free passes),
      )

  -- A provisioning token that a supplier is given registers one worker, and once: the first
  -- registration with it is answered by a token, and the next, whatever it says of the machine, is
  -- refused with the status 401 and changes nothing. No older row may wait for the same token.
  pub provisioning_registers_once :
      (name raw salt new_id : String) (user : User) (db : Db) (supplier : Supplier)
      (first second : Registration) (now later : ℕ)
      → supplier_for db user ≡ given supplier
      → waiting_for jwt hashing settings raw db ≡ none
      → let issued = issue_provisioning_token jwt hashing settings name raw salt new_id user db in
        let answer =
          register_worker jwt hashing settings
            (record first { provisioning_token = raw })
            now
            issued.1 in
        (issued.0 ≡ given raw)
        × (answer.0 ≡ given (encode_worker_token jwt settings new_id now))
        × (register_worker jwt hashing settings
              (record second { provisioning_token = raw })
              later
              answer.1
            ≡ (http 401, answer.1))
  unfolding issue_provisioning_token
  provisioning_registers_once name raw salt new_id user db supplier first second now later who
        free =
      let w = new_worker new_id supplier.id name (hashing.hash_token salt raw) in
      let once =
        provisioned-Once raw first second now later db w free
          (new_worker_matched new_id supplier.id name salt raw) in
      let (given_out, (first_time, again)) =
        subst
          (λ (by : Answer Supplier).
            ((provisioned jwt hashing settings name raw salt new_id db by).0 ≡ given raw)
            × Once raw new_id first second now later
                (provisioned jwt hashing settings name raw salt new_id db by).1)
          (sym who) (refl, once) in
      (given_out, first_time, again)
