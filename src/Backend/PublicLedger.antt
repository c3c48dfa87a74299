-- ===== src/Backend/PublicLedger.antt =====
-- backend/src/claw_api/api/v1/ledger.py: the statistics of the public ledger, and a page of its rows.
use claw_compute.Prelude.{
  ℕ, ◌+◌, Bool, true, false, not, ◌&&◌, ◌||◌, Option, none, some, List, [], ◌∷◌, map, filter,
  length, String, ◌==◌,
}
use claw_compute.ApiTypes.{LedgerStats}
use claw_compute.Backend.Models.{
  SettlementTxKind, open_, settle, cancel, SettlementTxStatus, confirmed, failed, SettlementTx,
}

abbrev pub is_confirmed : SettlementTxStatus → Bool
is_confirmed confirmed = true
is_confirmed failed = false

abbrev pub opens_kind : SettlementTxKind → Bool
opens_kind open_ = true
opens_kind settle = false
opens_kind cancel = false

-- `closes` and `opens`
abbrev pub is_close : SettlementTx → Bool
is_close tx = not (opens_kind tx.kind) && is_confirmed tx.status

abbrev pub is_open : SettlementTx → Bool
is_open tx = opens_kind tx.kind && is_confirmed tx.status

-- `sum` skips what is null.
abbrev pub or_zero : Option ℕ → ℕ
or_zero none = 0
or_zero (some n) = n

abbrev pub sum_of : (SettlementTx → Option ℕ) → List SettlementTx → ℕ
sum_of column [] = 0
sum_of column (tx ∷ txs) = or_zero (column tx) + sum_of column txs

abbrev pub is_in : String → List String → Bool
is_in id [] = false
is_in id (x ∷ xs) = id == x || is_in id xs

abbrev pub bookings_of : List SettlementTx → List String
bookings_of txs = map (λ tx. tx.booking_id) txs

abbrev pub closed_bookings : List SettlementTx → List String
closed_bookings txs = bookings_of (filter is_close txs)

-- An open row of a booking that is not among those.
abbrev pub is_still_open : List String → SettlementTx → Bool
is_still_open closed tx = is_open tx && not (is_in tx.booking_id closed)

abbrev pub still_open : List SettlementTx → List SettlementTx
still_open txs = filter (is_still_open (closed_bookings txs)) txs

unfoldable pub stats_of : List SettlementTx → LedgerStats
stats_of txs = record {
  settled_volume_usdc = sum_of (λ tx. tx.amount_usdc) (filter is_close txs);
  commission_usdc = sum_of (λ tx. tx.commission_usdc) (filter is_close txs);
  locked_volume_usdc =
      sum_of (λ tx. tx.amount_usdc)
        (filter (λ tx. is_open tx && is_in tx.booking_id (bookings_of (still_open txs))) txs);
  settlements = length (filter is_close txs);
  open_bookings = length (still_open txs);
}
