-- ===== src/Backend/Workers.antt =====
-- backend/src/claw_api/api/v1/workers.py: how a supplier's machine becomes a worker, and its
-- heartbeats. What chance gives (tokens, salts, ids) are arguments.
pub mod Sound
pub mod Barred
pub mod Enrolment
pub mod Once
use claw_compute.Prelude.{
  ℕ, Bool, true, false, not, ◌&&◌, Option, none, some, List, [], ◌∷◌, ◌++◌, map, find, filter,
  update_first, String, ◌==◌, is_empty, if◌then◌else◌,
}
use claw_compute.Backend.Models.{
  User, Supplier, WorkerStatus, waiting, online, offline, disabled, no_trust, self_signed, Worker,
  Heartbeat, Db,
}
use claw_compute.Backend.Router.{Answer, given, http, no_result_found, ◌>>=◌}
use claw_compute.Backend.Tokens.{AuthSettings, Jwt, Hashing, encode_worker_token, current_worker}

-- `_supplier_for`
abbrev pub supplier_for : Db → User → Answer Supplier
supplier_for db user = elim (find (λ s. s.user_id == user.id) db.suppliers) [
  | none ↦ http 403
  | some supplier ↦ given supplier
]

abbrev pub is_waiting : WorkerStatus → Bool
is_waiting waiting = true
is_waiting online = false
is_waiting offline = false
is_waiting disabled = false

abbrev pub is_offline : WorkerStatus → Bool
is_offline offline = true
is_offline waiting = false
is_offline online = false
is_offline disabled = false

pub record Registration : Type 0 where
  pub provisioning_token : String
  pub machine_info : String
  pub pubkey_x25519 : Option String

-- The fields of a new row that no argument gives have the defaults of the table.
abbrev pub new_worker : (new_id supplier_id name hash : String) → Worker
new_worker new_id supplier_id name hash = record {
  id = new_id;
  supplier_id = supplier_id;
  name = name;
  provisioning_token_hash = some hash;
  status = waiting;
  last_seen_at = none;
  machine_info = "{}";
  pubkey_x25519 = none;
  trust_level = no_trust;
  attested_at = none;
}

abbrev pub attested : Option String → ℕ → Worker → Worker
attested none now w = w
attested (some key) now w =
    if is_empty key
    then w
    else record w { pubkey_x25519 = some key; trust_level = self_signed; attested_at = some now }

abbrev pub registered : Registration → ℕ → Worker → Worker
registered payload now w = attested payload.pubkey_x25519 now (record w {
  status = online;
  machine_info = payload.machine_info;
  provisioning_token_hash = none;
  last_seen_at = some now;
})

abbrev pub seen_status : WorkerStatus → WorkerStatus
seen_status status = if is_offline status then online else status

abbrev pub seen : ℕ → Worker → Worker
seen now w = record w { last_seen_at = some now; status = seen_status w.status }

abbrev pub with_workers : List Worker → Db → Db
with_workers rows db = record db { workers = rows }

-- The worker is the one that the request's token names.
abbrev pub beat : ℕ → (sample : String) → Worker → Db → Db
beat now sample worker db = record db {
  workers = map (λ w. if w.id == worker.id then seen now w else w) db.workers;
  heartbeats = db.heartbeats ++ (record { worker_id = worker.id; sample = sample } ∷ []);
}

abbrev pub list_my_workers : Db → User → Answer (List Worker)
list_my_workers db user = do
  supplier ← supplier_for db user
  given (filter (λ w. w.supplier_id == supplier.id) db.workers)

module _ (jwt : Jwt) (hashing : Hashing) (settings : AuthSettings) where
  abbrev pub provisioned :
      (name raw salt new_id : String) → Db → Answer Supplier → Answer String × Db
  provisioned name raw salt new_id db (given supplier) = (
    given raw,
    with_workers
        (db.workers ++ (new_worker new_id supplier.id name (hashing.hash_token salt raw) ∷ [])) db,
  )
  provisioned name raw salt new_id db (http n) = (http n, db)
  provisioned name raw salt new_id db no_result_found = (no_result_found, db)

  -- Answers the provisioning token.
  unfoldable pub issue_provisioning_token :
      (name raw salt new_id : String) → User → Db → Answer String × Db
  issue_provisioning_token name raw salt new_id user db =
      provisioned name raw salt new_id db (supplier_for db user)

  abbrev hash_matches : String → Option String → Bool
  hash_matches token none = false
  hash_matches token (some hash) = not (is_empty hash) && hashing.verify_token token hash

  -- A row that is waiting for this token.
  abbrev pub is_matched : String → Worker → Bool
  is_matched token w = hash_matches token w.provisioning_token_hash && is_waiting w.status

  abbrev pub registration_of :
      Registration → ℕ → Db → Option (Worker × List Worker) → Answer String × Db
  registration_of payload now db none = (http 401, db)
  registration_of payload now db (some (matched, rows)) =
      (given (encode_worker_token jwt settings matched.id now), with_workers rows db)

  -- Answers the `worker_token`.
  unfoldable pub register_worker : Registration → ℕ → Db → Answer String × Db
  register_worker payload now db =
      registration_of payload now db
        (update_first (is_matched payload.provisioning_token) (registered payload now) db.workers)

  abbrev pub beaten : ℕ → (sample : String) → Db → Answer Worker → Answer (Unit {0}) × Db
  beaten now sample db (given worker) = (given tt, beat now sample worker db)
  beaten now sample db (http n) = (http n, db)
  beaten now sample db no_result_found = (no_result_found, db)

  -- `sample` is the load that the worker reports.
  unfoldable pub heartbeat :
      (creds : Option String) (sample : String) → ℕ → Db → Answer (Unit {0}) × Db
  heartbeat creds sample now db = beaten now sample db (current_worker jwt settings now db creds)
