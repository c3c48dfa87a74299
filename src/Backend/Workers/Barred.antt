-- ===== src/Backend/Workers/Barred.antt =====
-- What a worker that was disabled can still do (backend/src/claw_api/api/v1/workers.py, deps.py).
use mathlib.Core.Path.{subst}
use claw_compute.Prelude.{
  ℕ, ◌≡◌, refl, sym, ◌∙◌, ap, Bool, true, false, Option, none, some, List, [], ◌∷◌, ◌++◌, map, find,
  String, ◌==◌, arith, if◌then◌else◌, update_first, rest_or, Bool-cases, inl, inr, eq_iff,
}
use claw_compute.Backend.Models.{Supplier, online, disabled, Worker, Db}
use claw_compute.Backend.Router.{Answer, given, http, no_result_found}
use claw_compute.Backend.Tokens.{
  AuthSettings, Jwt, Claims, Hashing, is_disabled, current_worker, worker_of, decode_token,
}
use claw_compute.Backend.Workers.{
  supplier_for, Registration, new_worker, attested, registered, provisioned,
  issue_provisioning_token, is_matched, register_worker, beaten, heartbeat,
}
use claw_compute.Backend.Workers.Sound.{
  Request, provision, register, report, marked, serve, run, registration_of-workers,
}

abbrev pub worker_at : String → List Worker → Option Worker
worker_at id rows = find (λ w. w.id == id) rows

worker_at-append :
    (id : String) (rows more : List Worker) (w : Worker)
    → worker_at id rows ≡ some w
    → worker_at id (rows ++ more) ≡ some w
worker_at-append id [] more w h = ground arith
worker_at-append id (r ∷ rows) more w h = ground (arith, worker_at-append id rows more w)

pub worker_at-id :
    (id : String) (rows : List Worker) (w : Worker)
    → worker_at id rows ≡ some w
    → (w.id == id) ≡ true
worker_at-id id [] w h = ground arith
worker_at-id id (r ∷ rows) w h = ground (arith, worker_at-id id rows w)

attested-id : (key : Option String) (now : ℕ) (w : Worker) → (attested key now w).id ≡ w.id
attested-id none now w = refl
attested-id (some key) now w = ground arith

pub registered-id :
    (payload : Registration) (now : ℕ) (w : Worker) → (registered payload now w).id ≡ w.id
registered-id payload now w = attested-id payload.pubkey_x25519 now (record w {
  status = online;
  machine_info = payload.machine_info;
  provisioning_token_hash = none;
  last_seen_at = some now;
})

pub worker_at-kept :
    (id : String) (r : Worker) (rows : List Worker) (o : Option (Worker × List Worker))
    → worker_at id (rest_or (r ∷ rows) (elim o [ none ↦ none | some (y, ys) ↦ some (y, r ∷ ys) ]))
      ≡ (if r.id == id then some r else worker_at id (rest_or rows o))
worker_at-kept id r rows none = refl
worker_at-kept id r rows (some (y, ys)) = refl

-- A row that the test passes over stays, if the change keeps the ids.
worker_at-update_first :
    (p : Worker → Bool) (f : Worker → Worker) (keep : (x : Worker) → (f x).id ≡ x.id) (id : String)
    (rows : List Worker) (w : Worker)
    → worker_at id rows ≡ some w
    → p w ≡ false
    → worker_at id (rest_or rows (update_first p f rows)) ≡ some w
worker_at-update_first p f keep id [] w h out = ground arith
worker_at-update_first p f keep id (r ∷ rows) w h out = elim (Bool-cases (p r)) [
  | inl passes ↦ rw passes (ground (arith, keep r))
  | inr fails ↦ rw fails (
      ground (
        arith,
        worker_at-kept id r rows (update_first p f rows),
        worker_at-update_first p f keep id rows w,
      ))
]

-- So does a row that is not changed.
worker_at-map :
    (g : Worker → Worker) (keep : (x : Worker) → (g x).id ≡ x.id) (id : String) (rows : List Worker)
    (w : Worker)
    → worker_at id rows ≡ some w
    → worker_at id (map g rows) ≡ some (g w)
worker_at-map g keep id [] w h = ground arith
worker_at-map g keep id (r ∷ rows) w h = ground (arith, keep r, worker_at-map g keep id rows w)

-- The row that is found is the row of its id.
pub worker_at-own :
    (id : String) (rows : List Worker) (w : Worker)
    → worker_at id rows ≡ some w
    → worker_at w.id rows ≡ some w
worker_at-own id rows w h =
    subst (λ i. worker_at i rows ≡ some w) (sym ((eq_iff w.id id).0 (worker_at-id id rows w h))) h

marked-id : (id : String) (now : ℕ) (w : Worker) → (marked id now w).id ≡ w.id
marked-id id now w = ground arith

marked_other :
    (k w : Worker) (now : ℕ) (id : String) (rows : List Worker)
    → worker_at id rows ≡ some w
    → w.status ≡ disabled
    → worker_at k.id rows ≡ some k
    → is_disabled k.status ≡ false
    → marked k.id now w ≡ w
marked_other k w now id rows hw out hk not_out = elim (Bool-cases (w.id == k.id)) [
  | inl same ↦
      let own : worker_at k.id rows ≡ some w =
        subst (λ i. worker_at i rows ≡ some w) ((eq_iff w.id k.id).0 same)
          (worker_at-own id rows w hw) in
      absurd (ground arith)
  | inr other ↦ rw other
]

module _ (jwt : Jwt) (hashing : Hashing) (settings : AuthSettings) where
  worker_of-row :
      (db : Db) (c : Claims) (k : Worker)
      → worker_of jwt settings db (some c) ≡ given k
      → (worker_at c.sub db.workers ≡ some k) × (is_disabled k.status ≡ false)
  worker_of-row db c k h = ground arith

  worker_of-given :
      (db : Db) (read : Option Claims) (k : Worker)
      → worker_of jwt settings db read ≡ given k
      → (worker_at k.id db.workers ≡ some k) × (is_disabled k.status ≡ false)
  worker_of-given db none k h = absurd (ground arith)
  worker_of-given db (some c) k h =
      let (row, not_out) = worker_of-row db c k h in (worker_at-own c.sub db.workers k row, not_out)

  current_worker-given :
      (now : ℕ) (db : Db) (creds : Option String) (k : Worker)
      → current_worker jwt settings now db creds ≡ given k
      → (worker_at k.id db.workers ≡ some k) × (is_disabled k.status ≡ false)
  current_worker-given now db none k h = absurd (ground arith)
  current_worker-given now db (some token) k h =
      worker_of-given db (decode_token jwt settings now token) k h

  beaten_keeps :
      (now : ℕ) (sample id : String) (db : Db) (w : Worker) (creds : Option String)
      (who : Answer Worker)
      → current_worker jwt settings now db creds ≡ who
      → worker_at id db.workers ≡ some w
      → w.status ≡ disabled
      → worker_at id (beaten jwt hashing settings now sample db who).1.workers ≡ some w
  beaten_keeps now sample id db w creds (given k) found h out =
      let (row, not_out) = current_worker-given now db creds k found in
      worker_at-map (marked k.id now) (marked-id k.id now) id db.workers w h
      ∙ ap (λ (x : Worker). some x) (marked_other k w now id db.workers h out row not_out)
  beaten_keeps now sample id db w creds (http n) found h out = h
  beaten_keeps now sample id db w creds no_result_found found h out = h

  provisioned_keeps :
      (name raw salt new_id id : String) (db : Db) (who : Answer Supplier) (w : Worker)
      → worker_at id db.workers ≡ some w
      → worker_at id (provisioned jwt hashing settings name raw salt new_id db who).1.workers
        ≡ some w
  provisioned_keeps name raw salt new_id id db (given s) w h =
      worker_at-append id db.workers
        (new_worker new_id s.id name (hashing.hash_token salt raw) ∷ []) w h
  provisioned_keeps name raw salt new_id id db (http n) w h = h
  provisioned_keeps name raw salt new_id id db no_result_found w h = h

  disabled_unmatched :
      (token : String) (w : Worker)
      → w.status ≡ disabled
      → is_matched jwt hashing settings token w ≡ false
  disabled_unmatched token w out = ground arith

  serve_keeps :
      (now : ℕ) (r : Request) (id : String) (db : Db) (w : Worker)
      → worker_at id db.workers ≡ some w
      → w.status ≡ disabled
      → worker_at id (serve jwt hashing settings now r db).workers ≡ some w
  unfolding issue_provisioning_token register_worker heartbeat
  serve_keeps now (provision name raw salt new_id user) id db w h out =
      provisioned_keeps name raw salt new_id id db (supplier_for db user) w h
  serve_keeps now (register payload) id db w h out =
      let p = is_matched jwt hashing settings payload.provisioning_token in
      let f = registered payload now in
      ap (worker_at id)
        (registration_of-workers jwt hashing settings payload now db (update_first p f db.workers))
      ∙ worker_at-update_first p f (registered-id payload now) id db.workers w h
          (disabled_unmatched payload.provisioning_token w out)
  serve_keeps now (report creds sample) id db w h out =
      beaten_keeps now sample id db w creds (current_worker jwt settings now db creds) refl h out

  -- Whatever requests come to the routes of the workers, with whatever tokens: the row of a worker that
  -- is disabled stays as it is, its last sighting and its key included.
  pub disabled_stays :
      (requests : List (ℕ × Request)) (id : String) (db : Db) (w : Worker)
      → worker_at id db.workers ≡ some w
      → w.status ≡ disabled
      → worker_at id (run jwt hashing settings requests db).workers ≡ some w
  unfolding run
  disabled_stays [] id db w h out = h
  disabled_stays ((now, r) ∷ rest) id db w h out =
      disabled_stays rest id (serve jwt hashing settings now r db) w
        (serve_keeps now r id db w h out) out
