-- ===== src/ApiTypes.antt =====
-- web/src/lib/api-types.ts: what the marketplace API answers. Amounts, rates, counts and times are
-- natural numbers; `null` is `none`. Times stay texts, as they travel.
use claw_compute.Prelude.{ℕ, String, Bool, Option, List}

pub record UserOut : Type 0 where
  pub id : String
  pub email : String
  pub wallet_address : Option String

pub record SupplierOut : Type 0 where
  pub id : String
  pub display_name : String
  pub payout_email : String
  pub payout_wallet : Option String

pub data OfferingStatus : Type 0 where
  draft active archived : OfferingStatus

pub record OfferingOut : Type 0 where
  pub id : String
  pub supplier_id : String
  pub title : String
  pub description : String
  pub price_per_hour_cents : ℕ
  pub capability_tags : List String
  pub status : OfferingStatus

pub record OfferingList : Type 0 where
  pub items : List OfferingOut
  pub total : ℕ

pub data WorkerStatus : Type 0 where
  pending active offline disabled : WorkerStatus

-- `machine_info` holds what the client reads out of it: the chip, and the memory as it is rounded.
pub record MachineInfo : Type 0 where
  pub chip : Option String
  pub total_ram_gb : Option ℕ

pub record WorkerOut : Type 0 where
  pub id : String
  pub name : String
  pub status : WorkerStatus
  pub last_seen_at : Option String
  pub machine_info : MachineInfo

pub record ProvisioningTokenResponse : Type 0 where
  pub provisioning_token : String
  pub worker : WorkerOut

pub data BookingStatus : Type 0 where
  pending active completed cancelled : BookingStatus

pub record BookingOut : Type 0 where
  pub id : String
  pub consumer_user_id : String
  pub offering_id : String
  pub worker_id : String
  pub status : BookingStatus
  pub started_at : Option String
  pub ended_at : Option String

pub record RoleResponse : Type 0 where
  pub is_supplier : Bool
  pub is_consumer : Bool

pub data MessageRole : Type 0 where
  user assistant : MessageRole

pub record MessageOut : Type 0 where
  pub id : String
  pub role : MessageRole
  pub content : String
  pub created_at : String

-- `opening` is the source's "open".
pub data SettlementKind : Type 0 where
  opening settle cancel : SettlementKind

pub data SettlementStatus : Type 0 where
  confirmed failed : SettlementStatus

-- USDC amounts are in base units, of which a dollar has a million.
pub record LedgerEntry : Type 0 where
  pub id : String
  pub booking_id : String
  pub kind : SettlementKind
  pub status : SettlementStatus
  pub tx_hash : Option String
  pub block_number : Option ℕ
  pub consumer_wallet : Option String
  pub supplier_wallet : Option String
  pub supplier_name : Option String
  pub offering_title : Option String
  pub rate_per_hour_cents : Option ℕ
  pub usage_seconds : Option ℕ
  pub amount_usdc : Option ℕ
  pub commission_usdc : Option ℕ
  pub error : Option String
  pub created_at : String

pub record ChainInfo : Type 0 where
  pub enabled : Bool
  pub chain_name : String
  pub chain_id : ℕ
  pub explorer_url : String
  pub escrow_address : String
  pub usdc_address : String
  pub commission_bps : ℕ

pub record LedgerStats : Type 0 where
  pub settled_volume_usdc : ℕ
  pub commission_usdc : ℕ
  pub locked_volume_usdc : ℕ
  pub settlements : ℕ
  pub open_bookings : ℕ

pub record LedgerOut : Type 0 where
  pub chain : ChainInfo
  pub stats : LedgerStats
  pub items : List LedgerEntry
  pub total : ℕ
