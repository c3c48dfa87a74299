-- ===== src/Backend/Models.antt =====
-- backend/src/claw_api/models: the columns of the rows that a transition of a booking reads and writes.
use claw_compute.Prelude.{
  ℕ, Bool, true, false, ◌||◌, Option, List, [], ◌∷◌, map, find, String, ◌==◌, if◌then◌else◌,
}
use claw_compute.Escrow.Result.{Revert}

pub data BookingStatus : Type 0 where
  pending active completed cancelled : BookingStatus

abbrev pub same_status : BookingStatus → BookingStatus → Bool
same_status pending pending = true
same_status active active = true
same_status completed completed = true
same_status cancelled cancelled = true
same_status _ _ = false

abbrev pub valid_transitions : BookingStatus → List BookingStatus
valid_transitions pending = active ∷ cancelled ∷ []
valid_transitions active = completed ∷ cancelled ∷ []
valid_transitions completed = []
valid_transitions cancelled = []

-- `to in statuses`
abbrev pub is_among : BookingStatus → List BookingStatus → Bool
is_among to [] = false
is_among to (status ∷ statuses) = same_status to status || is_among to statuses

-- A `datetime` is a number of microseconds.
pub record Booking : Type 0 where
  pub id : String
  pub consumer_user_id : String
  pub offering_id : String
  pub worker_id : String
  pub status : BookingStatus
  pub started_at : Option ℕ
  pub ended_at : Option ℕ

pub record Offering : Type 0 where
  pub id : String
  pub supplier_id : String
  pub price_per_hour_cents : ℕ

pub record User : Type 0 where
  pub id : String
  pub email : String
  pub wallet_address : Option String

pub record Supplier : Type 0 where
  pub id : String
  pub user_id : String
  pub payout_wallet : Option String

-- `waiting` and `online` are the source's `pending` and `active`; `no_trust` is its `none`.
pub data WorkerStatus : Type 0 where
  waiting online offline disabled : WorkerStatus

pub data TrustLevel : Type 0 where
  no_trust self_signed hardware : TrustLevel

-- `machine_info` is the JSON that the worker sends, as a text.
pub record Worker : Type 0 where
  pub id : String
  pub supplier_id : String
  pub name : String
  pub provisioning_token_hash : Option String
  pub status : WorkerStatus
  pub last_seen_at : Option ℕ
  pub machine_info : String
  pub pubkey_x25519 : Option String
  pub trust_level : TrustLevel
  pub attested_at : Option ℕ

-- `sample` is the reported load.
pub record Heartbeat : Type 0 where
  pub worker_id : String
  pub sample : String

pub record MagicLinkToken : Type 0 where
  pub email : String
  pub token_hash : String
  pub expires_at : ℕ
  pub used_at : Option ℕ

pub data MessageRole : Type 0 where
  user assistant : MessageRole

pub record Message : Type 0 where
  pub booking_id : String
  pub role : MessageRole
  pub content : String

-- Why a call of the contract failed, as the client raises it.
pub data ChainError : Type 0 where
  bad_address unreachable_node timed_out : ChainError
  refused_by : Revert → ChainError

pub data SettlementTxKind : Type 0 where
  open_ settle cancel : SettlementTxKind

pub data SettlementTxStatus : Type 0 where
  confirmed failed : SettlementTxStatus

pub record SettlementTx : Type 0 where
  pub booking_id : String
  pub kind : SettlementTxKind
  pub status : SettlementTxStatus
  pub tx_hash : Option String
  pub block_number : Option ℕ
  pub consumer_wallet : Option String
  pub supplier_wallet : Option String
  pub rate_per_hour_cents : Option ℕ
  pub usage_seconds : Option ℕ
  pub amount_usdc : Option ℕ
  pub commission_usdc : Option ℕ
  pub error : Option ChainError

pub record Db : Type 0 where
  pub bookings : List Booking
  pub offerings : List Offering
  pub users : List User
  pub suppliers : List Supplier
  pub workers : List Worker
  pub heartbeats : List Heartbeat
  pub magic_link_tokens : List MagicLinkToken
  pub messages : List Message
  pub settlement_txs : List SettlementTx

-- `select(Booking).where(Booking.id == id)`
abbrev pub booking_at : String → Db → Option Booking
booking_at id db = find (λ b. b.id == id) db.bookings

-- The row of a booking that was changed, once it is committed.
abbrev pub saved : Booking → List Booking → List Booking
saved b rows = map (λ r. if r.id == b.id then b else r) rows
