-- ===== src/Backend/Service.antt =====
-- backend/src/claw_api/chain/service.py: when a booking is settled on the contract, and what is
-- recorded of it.
use claw_compute.Prelude.{
  ℕ, ◌-◌, ◌*◌, ◌/◌, Bool, false, not, ◌&&◌, Option, none, some, List, [], ◌∷◌, ◌++◌, String,
  is_empty, if◌then◌else◌,
}
use claw_compute.Escrow.Contract.{Chain, Contract, Event, booking_opened, booking_settled}
use claw_compute.Backend.Models.{
  Booking, Offering, User, Supplier, ChainError, SettlementTxKind, open_, settle, cancel, confirmed,
  failed, SettlementTx, Db,
}
use claw_compute.Backend.Client
use claw_compute.Backend.Client.{Node, Fate, TxResult, Sent, answered, raised}

-- The settings that the settlement reads.
pub record Settings : Type 0 where
  pub chain_enabled : Bool
  pub chain_escrow_address : String
  pub chain_settler_key : String
  pub chain_max_booking_hours : ℕ

-- `str | None` as a condition, and as the argument of a call that follows it.
abbrev has_text : Option String → Bool
has_text none = false
has_text (some s) = not (is_empty s)

abbrev pub text_or_empty : Option String → String
text_or_empty none = ""
text_or_empty (some s) = s

-- A message to a worker, sealed to its key where it has one.
pub data Notice : Type 0 where
  booking_activated : (booking_id offering_id : String) → Notice
  booking_cancelled : (booking_id : String) → Notice

pub record World (C : Chain) : Type 0 where
  pub db : Db
  pub contract : Contract C
  pub published : List (String × Notice)

abbrev pub applicable : Settings → User → Supplier → Bool
applicable s consumer supplier =
    s.chain_enabled
    && (not (is_empty s.chain_escrow_address)
        && (not (is_empty s.chain_settler_key)
            && (has_text consumer.wallet_address && has_text supplier.payout_wallet)))

-- `max(0, int((ended_at - started_at).total_seconds()))`
abbrev seconds_between : Option ℕ → Option ℕ → ℕ
seconds_between (some start) (some end) = (end - start) / 1000000
seconds_between _ _ = 0

abbrev pub usage_seconds : Booking → ℕ
usage_seconds b = seconds_between b.started_at b.ended_at

abbrev locked_amount : Option Event → Option ℕ
locked_amount none = none
locked_amount (some (booking_opened id k)) = some k.locked_amount
locked_amount (some _) = some 0

abbrev cost_of : Option Event → Option ℕ
cost_of none = none
cost_of (some (booking_settled id consumer supplier usage cost commission cancelled)) = some cost
cost_of (some _) = some 0

abbrev commission_of : Option Event → Option ℕ
commission_of none = none
commission_of (some (booking_settled id consumer supplier usage cost commission cancelled)) =
    some commission
commission_of (some _) = some 0

-- The row that a call starts with.
abbrev pub attempt :
    SettlementTxKind → Option ℕ → Booking → Offering → User → Supplier → SettlementTx
attempt kind usage b o consumer supplier = record {
  booking_id = b.id;
  kind = kind;
  status = failed;
  tx_hash = none;
  block_number = none;
  consumer_wallet = consumer.wallet_address;
  supplier_wallet = supplier.payout_wallet;
  rate_per_hour_cents = some o.price_per_hour_cents;
  usage_seconds = usage;
  amount_usdc = none;
  commission_usdc = none;
  error = none;
}

abbrev pub refused_tx : ChainError → SettlementTx → SettlementTx
refused_tx e tx = record tx { error = some e }

abbrev pub opened_tx : TxResult → SettlementTx → SettlementTx
opened_tx r tx = record tx {
  status = confirmed;
  tx_hash = some r.tx_hash;
  block_number = some r.block_number;
  amount_usdc = locked_amount r.event;
}

abbrev pub closed_tx : TxResult → SettlementTx → SettlementTx
closed_tx r tx = record tx {
  status = confirmed;
  tx_hash = some r.tx_hash;
  block_number = some r.block_number;
  amount_usdc = cost_of r.event;
  commission_usdc = commission_of r.event;
}

module _ (C : Chain) (node : Node) (settings : Settings) where
  -- `db.add(tx)`, the contract being as the call left it.
  abbrev pub recorded : SettlementTx → Contract C → World C → World C
  recorded tx contract w = record w {
    db = record w.db { settlement_txs = w.db.settlement_txs ++ (tx ∷ []) };
    contract = contract;
  }

  abbrev pub opening : SettlementTx → World C → Sent × Contract C → Option ChainError × World C
  opening tx w (raised e, contract) = (some e, recorded (refused_tx e tx) contract w)
  opening tx w (answered r, contract) = (none, recorded (opened_tx r tx) contract w)

  -- The error is the `ChainSettlementError` that is raised.
  abbrev pub settle_on_activate :
      Booking → Offering → User → Supplier → Fate → World C → Option ChainError × World C
  settle_on_activate b o consumer supplier fate w =
      if not (applicable settings consumer supplier)
      then (none, w)
      else opening (attempt open_ none b o consumer supplier) w (
          Client.open_booking C node b.id (text_or_empty consumer.wallet_address)
            (text_or_empty supplier.payout_wallet) o.price_per_hour_cents
            (settings.chain_max_booking_hours * 3600) fate w.contract)

  abbrev pub closing : SettlementTx → World C → Sent × Contract C → World C
  closing tx w (raised e, contract) = recorded (refused_tx e tx) contract w
  closing tx w (answered r, contract) = recorded (closed_tx r tx) contract w

  abbrev pub settle_on_close :
      Booking → Offering → User → Supplier → (cancelled : Bool) → Fate → World C → World C
  settle_on_close b o consumer supplier cancelled fate w =
      let usage = usage_seconds b in
      if not (applicable settings consumer supplier)
      then w
      else closing
          (attempt (if cancelled then cancel else settle) (some usage) b o consumer supplier) w
          (if cancelled
            then Client.cancel_booking C node b.id usage fate w.contract
            else Client.settle_booking C node b.id usage fate w.contract)
