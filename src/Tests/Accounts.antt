-- ===== src/Tests/Accounts.antt =====
-- Sign-ins and workers, at which the theorems on them are applied.
use claw_compute.Prelude.{ℕ, ◌+◌, ◌≡◌, ◌↔◌, refl, none, some, String, List, [], ◌∷◌, arith, All}
use claw_compute.Backend.Models.{User, Worker, disabled, self_signed, Db}
use claw_compute.Backend.Router.{given, http}
use claw_compute.Backend.Tokens.{
  AuthSettings, encode_user_token, encode_worker_token, current_user, current_worker,
}
use claw_compute.Backend.Login.{AuthState, request_magic_link, verify_magic_link}
use claw_compute.Backend.Login.Counting.{
  Request, link, exchange, run, unused, links, run_conserves_links,
}
use claw_compute.Backend.Login.Laws.{
  link_of, request_magic_link-signs_in, verify_magic_link-eq-http_iff, kinds_kept_apart,
}
use claw_compute.Backend.Workers.{
  Registration, registered, issue_provisioning_token, register_worker, new_worker, with_workers,
}
use claw_compute.Backend.Workers.Sound
use claw_compute.Backend.Workers.Sound.{IsSound, provision, register, report, run-IsSound}
use claw_compute.Backend.Workers.Barred.{worker_at, disabled_stays}
use claw_compute.Backend.Workers.Enrolment.{register_worker-lets_in}
use claw_compute.Backend.Workers.Once.{provisioning_registers_once}
use claw_compute.Tests.Codec.{plain_jwt, plain_hashing}

abbrev pub a_day : AuthSettings
a_day = record {
  jwt_secret = "secret";
  jwt_algorithm = "HS256";
  jwt_user_ttl_hours = 24;
  jwt_worker_ttl_days = 30;
  magic_link_ttl_minutes = 15;
  magic_link_delivery = "console";
}

-- Addresses that are in the lower case.
abbrev lower : String → String
lower email = email

abbrev pub ann : User
ann = record { id = "u"; email = "ann@x"; wallet_address = none }

abbrev a_mini : Worker
a_mini = record (new_worker "k" "s" "mini" "#p") {
  status = disabled;
  provisioning_token_hash = none;
  pubkey_x25519 = some "key";
  trust_level = self_signed;
  attested_at = some 1;
}

abbrev pub tables : Db
tables = record {
  bookings = [];
  offerings = [];
  users = ann ∷ [];
  suppliers = record { id = "s"; user_id = "u"; payout_wallet = none } ∷ [];
  workers = a_mini ∷ [];
  heartbeats = [];
  magic_link_tokens = [];
  messages = [];
  settlement_txs = [];
}

abbrev office : AuthState
office = record { db = tables; log = [] }

abbrev visits : List (ℕ × Request)
visits = (0, link "ann@x" "r" "") ∷ (5, exchange "r" "v") ∷ (6, exchange "r" "w") ∷ []

run_conserves_links_example :
    (run plain_jwt plain_hashing lower a_day visits office).0
      + unused (run plain_jwt plain_hashing lower a_day visits office).1.db.magic_link_tokens
    ≡ links visits + unused office.db.magic_link_tokens
run_conserves_links_example = run_conserves_links plain_jwt plain_hashing lower a_day visits office

abbrev asked : Db
asked = (request_magic_link plain_jwt plain_hashing lower a_day "ann@x" "r" "" 0 office).1.db

request_magic_link-signs_in_example :
    (token : String) × (user : User) × ((verify_magic_link plain_jwt plain_hashing lower a_day "r"
        "v" 5 asked).0
      ≡ given token)
    × (user.email ≡ "ann@x")
    × (current_user plain_jwt a_day 1000000
          (verify_magic_link plain_jwt plain_hashing lower a_day "r" "v" 5 asked).1
          (some token)
        ≡ given user)
request_magic_link-signs_in_example =
    request_magic_link-signs_in plain_jwt plain_hashing lower a_day "ann@x" "r" "" "v" 0 5 1000000
      office refl (omega arith) (refl, tt) refl (omega arith) (omega arith)

verify_magic_link-eq-http_iff_example :
    (link_of plain_jwt plain_hashing lower a_day 900000000 "r" asked ≡ none) ↔ (
      verify_magic_link plain_jwt plain_hashing lower a_day "r" "v" 900000000 asked
      ≡ (http 401, asked))
verify_magic_link-eq-http_iff_example =
    verify_magic_link-eq-http_iff plain_jwt plain_hashing lower a_day "r" "v" 900000000 asked

kinds_kept_apart_example :
    (current_worker plain_jwt a_day 5 tables (some (encode_user_token plain_jwt a_day "k" 0))
      ≡ http 401)
    × (current_user plain_jwt a_day 5 tables (some (encode_worker_token plain_jwt a_day "k" 0))
        ≡ http 401)
kinds_kept_apart_example = kinds_kept_apart plain_jwt a_day "k" 0 5 tables

abbrev a_registration : Registration
a_registration = record {
  provisioning_token = "p";
  machine_info = "{}";
  pubkey_x25519 = some "key";
}

abbrev issued : Db
issued = (issue_provisioning_token plain_jwt plain_hashing a_day "mini" "p" "" "n" ann tables).1

provisioning_registers_once_example :
    ((issue_provisioning_token plain_jwt plain_hashing a_day "mini" "p" "" "n" ann tables).0
      ≡ given "p")
    × ((register_worker plain_jwt plain_hashing a_day a_registration 5 issued).0
        ≡ given (encode_worker_token plain_jwt a_day "n" 5))
    × (register_worker plain_jwt plain_hashing a_day a_registration 9
          (register_worker plain_jwt plain_hashing a_day a_registration 5 issued).1
        ≡ (http 401, (register_worker plain_jwt plain_hashing a_day a_registration 5 issued).1))
provisioning_registers_once_example =
    provisioning_registers_once plain_jwt plain_hashing a_day "mini" "p" "" "n" ann tables
      (record { id = "s"; user_id = "u"; payout_wallet = none }) a_registration a_registration 5 9
      refl refl

abbrev new_mini : Worker
new_mini = new_worker "n" "s" "mini" "#p"

abbrev waiting_tables : Db
waiting_tables = with_workers (a_mini ∷ new_mini ∷ []) tables

register_worker-lets_in_example :
    (token : String) × ((register_worker plain_jwt plain_hashing a_day a_registration 5
        waiting_tables).0
      ≡ given token)
    × (current_worker plain_jwt a_day 1000000
          (register_worker plain_jwt plain_hashing a_day a_registration 5 waiting_tables).1
          (some token)
        ≡ given (registered a_registration 5 new_mini))
unfolding plain_hashing
register_worker-lets_in_example =
    register_worker-lets_in plain_jwt plain_hashing a_day a_registration 5 1000000 waiting_tables
      new_mini refl refl (omega arith) (omega arith)

abbrev shifts : List (ℕ × Sound.Request)
shifts =
    (0, provision "mini" "p" "" "n" ann)
    ∷ (5, register a_registration)
    ∷ (9, report (some (encode_worker_token plain_jwt a_day "n" 5)) "{}")
    ∷ (10, report (some (encode_worker_token plain_jwt a_day "k" 5)) "{}")
    ∷ []

disabled_stays_example :
    worker_at "k" (Sound.run plain_jwt plain_hashing a_day shifts tables).workers ≡ some a_mini
disabled_stays_example =
    disabled_stays plain_jwt plain_hashing a_day shifts "k" tables a_mini refl refl

run-IsSound_example : All IsSound (Sound.run plain_jwt plain_hashing a_day shifts tables).workers
run-IsSound_example = run-IsSound plain_jwt plain_hashing a_day shifts tables ((refl, refl), tt)
