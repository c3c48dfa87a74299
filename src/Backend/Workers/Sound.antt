-- ===== src/Backend/Workers/Sound.antt =====
-- From a provisioning token to a worker that is let in, and what holds of every row of the workers
-- (backend/src/claw_api/api/v1/workers.py, deps.py).
use mathlib.Core.Path.{subst}
use claw_compute.Prelude.{
  ℕ, ◌≡◌, refl, sym, false, Option, none, some, List, [], ◌∷◌, String, ◌==◌, is_empty,
  if◌then◌else◌, All, All-map, All-append, All-update_first, update_first, rest_or, Bool-cases, inl,
  inr,
}
use claw_compute.Backend.Models.{
  User, Supplier, WorkerStatus, waiting, online, offline, disabled, TrustLevel, no_trust,
  self_signed, Worker, Db,
}
use claw_compute.Backend.Router.{Answer, given, http, no_result_found}
use claw_compute.Backend.Tokens.{AuthSettings, Jwt, Hashing, current_worker}
use claw_compute.Backend.Workers.{
  supplier_for, Registration, new_worker, attested, registered, seen_status, seen, provisioned,
  issue_provisioning_token, is_matched, registration_of, register_worker, beaten, heartbeat,
}

-- A worker waits exactly as long as it has a token to register with.
abbrev pub Progress : WorkerStatus → Option String → Type 0
Progress waiting (some hash) = Unit
Progress waiting none = ⊥
Progress online hash = hash ≡ none
Progress offline hash = hash ≡ none
Progress disabled hash = hash ≡ none

-- What is said of the trust in a worker agrees with the key that it has given.
abbrev pub Posture : Option String → TrustLevel → Option ℕ → Type 0
Posture none no_trust none = Unit
Posture (some key) self_signed (some time) = is_empty key ≡ false
Posture _ _ _ = ⊥

abbrev pub IsSound : Worker → Type 0
IsSound w =
    Progress w.status w.provisioning_token_hash
    × Posture w.pubkey_x25519 w.trust_level w.attested_at

seen-Progress :
    (status : WorkerStatus) (hash : Option String)
    → Progress status hash
    → Progress (seen_status status) hash
seen-Progress waiting hash h = h
seen-Progress online hash h = h
seen-Progress offline hash h = h
seen-Progress disabled hash h = h

attested-IsSound :
    (key : Option String) (now : ℕ) (w : Worker) → IsSound w → IsSound (attested key now w)
attested-IsSound none now w h = h
attested-IsSound (some key) now w h = elim (Bool-cases (is_empty key)) [
  | inl empty ↦ rw empty h
  | inr filled ↦ rw filled (h.0, filled)
]

registered-IsSound :
    (payload : Registration) (now : ℕ) (w : Worker) → IsSound w → IsSound (registered payload now w)
registered-IsSound payload now w h =
    attested-IsSound payload.pubkey_x25519 now
      (record w {
        status = online;
        machine_info = payload.machine_info;
        provisioning_token_hash = none;
        last_seen_at = some now;
      })
      (refl, h.1)

-- What a heartbeat does to the row of a worker.
abbrev pub marked : String → ℕ → Worker → Worker
marked id now w = if w.id == id then seen now w else w

marked-IsSound : (id : String) (now : ℕ) (w : Worker) → IsSound w → IsSound (marked id now w)
marked-IsSound id now w h = elim (Bool-cases (w.id == id)) [
  | inl same ↦ rw same (seen-Progress w.status w.provisioning_token_hash h.0, h.1)
  | inr other ↦ rw other h
]

-- A request to the routes of the workers, and of the supplier that provisions them.
pub data Request : Type 0 where
  provision : (name raw salt new_id : String) (user : User) → Request
  register : (payload : Registration) → Request
  report : (creds : Option String) (sample : String) → Request

module _ (jwt : Jwt) (hashing : Hashing) (settings : AuthSettings) where
  abbrev pub serve : ℕ → Request → Db → Db
  serve now (provision name raw salt new_id user) db =
      (issue_provisioning_token jwt hashing settings name raw salt new_id user db).1
  serve now (register payload) db = (register_worker jwt hashing settings payload now db).1
  serve now (report creds sample) db = (heartbeat jwt hashing settings creds sample now db).1

  unfoldable pub run : List (ℕ × Request) → Db → Db
  run [] db = db
  run ((now, r) ∷ rest) db = run rest (serve now r db)

  provisioned-IsSound :
      (name raw salt new_id : String) (db : Db) (who : Answer Supplier)
      → All IsSound db.workers
      → All IsSound (provisioned jwt hashing settings name raw salt new_id db who).1.workers
  provisioned-IsSound name raw salt new_id db (given s) h =
      All-append IsSound db.workers (new_worker new_id s.id name (hashing.hash_token salt raw) ∷ [])
        h ((tt, tt), tt)
  provisioned-IsSound name raw salt new_id db (http n) h = h
  provisioned-IsSound name raw salt new_id db no_result_found h = h

  pub registration_of-workers :
      (payload : Registration) (now : ℕ) (db : Db) (o : Option (Worker × List Worker))
      → (registration_of jwt hashing settings payload now db o).1.workers ≡ rest_or db.workers o
  registration_of-workers payload now db none = refl
  registration_of-workers payload now db (some (w, rows)) = refl

  beaten-IsSound :
      (now : ℕ) (sample : String) (db : Db) (who : Answer Worker)
      → All IsSound db.workers
      → All IsSound (beaten jwt hashing settings now sample db who).1.workers
  beaten-IsSound now sample db (given k) h =
      All-map IsSound (marked k.id now) (marked-IsSound k.id now) db.workers h
  beaten-IsSound now sample db (http n) h = h
  beaten-IsSound now sample db no_result_found h = h

  serve-IsSound :
      (now : ℕ) (r : Request) (db : Db)
      → All IsSound db.workers
      → All IsSound (serve now r db).workers
  unfolding issue_provisioning_token register_worker heartbeat
  serve-IsSound now (provision name raw salt new_id user) db h =
      provisioned-IsSound name raw salt new_id db (supplier_for db user) h
  serve-IsSound now (register payload) db h =
      let p = is_matched jwt hashing settings payload.provisioning_token in
      subst (All IsSound)
        (sym (
          registration_of-workers payload now db
            (update_first p (registered payload now) db.workers)))
        (All-update_first IsSound p (registered payload now)
          (λ w sound passes. registered-IsSound payload now w sound) db.workers h)
  serve-IsSound now (report creds sample) db h =
      beaten-IsSound now sample db (current_worker jwt settings now db creds) h

  -- In every run of the requests each row of the workers, if so at the start, has a token to
  -- register with exactly as long as it waits, and is said to be self-signed, with the time,
  -- exactly if it has a key that is not empty, and otherwise not to be trusted.
  pub run-IsSound :
      (requests : List (ℕ × Request)) (db : Db)
      → All IsSound db.workers
      → All IsSound (run requests db).workers
  unfolding run
  run-IsSound [] db h = h
  run-IsSound ((now, r) ∷ rest) db h = run-IsSound rest (serve now r db) (serve-IsSound now r db h)
