-- ===== src/Backend/LedgerSums.antt =====
-- How a settlement's row moves the statistics of the public ledger
-- (backend/src/claw_api/api/v1/ledger.py).
use claw_compute.Prelude.{
  ℕ, ◌+◌, ◌≡◌, refl, ap, ◌∙◌, Bool, true, false, Option, List, [], ◌∷◌, ◌++◌, filter, length,
  String, ◌==◌, if◌then◌else◌, arith, length-append,
}
use claw_compute.Backend.Models.{SettlementTx}
use claw_compute.Backend.PublicLedger.{
  is_close, or_zero, sum_of, bookings_of, closed_bookings, is_still_open, still_open, stats_of,
}
use claw_compute.Backend.LedgerLocked.{is_in-append, locked_volume_lem}

filter-append :
    (p : SettlementTx → Bool) (rows : List SettlementTx) (tx : SettlementTx)
    → filter p (rows ++ (tx ∷ [])) ≡ (if p tx then filter p rows ++ (tx ∷ []) else filter p rows)
filter-append p [] tx = refl
filter-append p (r ∷ rows) tx = ground (arith, filter-append p rows tx)

sum_of-append :
    (column : SettlementTx → Option ℕ) (rows : List SettlementTx) (tx : SettlementTx)
    → sum_of column (rows ++ (tx ∷ [])) ≡ sum_of column rows + or_zero (column tx)
sum_of-append column [] tx = omega arith
sum_of-append column (r ∷ rows) tx = omega (arith, sum_of-append column rows tx)

bookings_of-append :
    (rows : List SettlementTx) (tx : SettlementTx)
    → bookings_of (rows ++ (tx ∷ [])) ≡ bookings_of rows ++ (tx.booking_id ∷ [])
bookings_of-append [] tx = refl
bookings_of-append (r ∷ rows) tx = ap (λ ids. r.booking_id ∷ ids) (bookings_of-append rows tx)

module _ (tx : SettlementTx) (closing : is_close tx ≡ true) where
  -- What the row's booking has still open.
  abbrev pub released : List SettlementTx → List SettlementTx
  released txs = filter (λ r. r.booking_id == tx.booking_id) (still_open txs)

  open_sum-close :
      (closed : List String) (rows : List SettlementTx)
      → sum_of (λ r. r.amount_usdc) (filter (is_still_open (closed ++ (tx.booking_id ∷ []))) rows)
          + sum_of
              (λ r. r.amount_usdc)
              (filter (λ r. r.booking_id == tx.booking_id) (filter (is_still_open closed) rows))
        ≡ sum_of (λ r. r.amount_usdc) (filter (is_still_open closed) rows)
  open_sum-close closed [] = omega arith
  open_sum-close closed (r ∷ rows) =
      ground (arith, is_in-append r.booking_id tx.booking_id closed, open_sum-close closed rows)

  open_count-close :
      (closed : List String) (rows : List SettlementTx)
      → length (filter (is_still_open (closed ++ (tx.booking_id ∷ []))) rows)
          + length
              (filter (λ r. r.booking_id == tx.booking_id) (filter (is_still_open closed) rows))
        ≡ length (filter (is_still_open closed) rows)
  open_count-close closed [] = omega arith
  open_count-close closed (r ∷ rows) =
      ground (arith, is_in-append r.booking_id tx.booking_id closed, open_count-close closed rows)

  closes-append :
      (txs : List SettlementTx)
      → filter is_close (txs ++ (tx ∷ [])) ≡ filter is_close txs ++ (tx ∷ [])
  closes-append txs = ground (arith, filter-append is_close txs tx)

  not_open : (closed : List String) → is_still_open closed tx ≡ false
  not_open closed = ground arith

  still_open-append :
      (txs : List SettlementTx)
      → still_open (txs ++ (tx ∷ []))
        ≡ filter (is_still_open (closed_bookings txs ++ (tx.booking_id ∷ []))) txs
  still_open-append txs =
      let closed = closed_bookings txs ++ (tx.booking_id ∷ []) in
      let e : closed_bookings (txs ++ (tx ∷ [])) ≡ closed =
        ap bookings_of (closes-append txs) ∙ bookings_of-append (filter is_close txs) tx in
      ap (λ ids. filter (is_still_open ids) (txs ++ (tx ∷ []))) e
      ∙ filter-append (is_still_open closed) txs tx
      ∙ ap
          (λ b.
            if b
            then filter (is_still_open closed) txs ++ (tx ∷ [])
            else filter (is_still_open closed) txs)
          (not_open closed)

  -- A row of a settlement or a cancellation that is confirmed adds its amount to the settled volume,
  -- its commission to the commission and one to the settlements, and takes what its booking had locked
  -- out of the locked volume and out of the open bookings.
  pub stats_of-close :
      (txs : List SettlementTx)
      → let before = stats_of txs in
        let after = stats_of (txs ++ (tx ∷ [])) in
        (after.settled_volume_usdc ≡ before.settled_volume_usdc + or_zero tx.amount_usdc)
        × (after.commission_usdc ≡ before.commission_usdc + or_zero tx.commission_usdc)
        × (after.settlements ≡ before.settlements + 1)
        × (after.locked_volume_usdc + sum_of (λ r. r.amount_usdc) (released txs)
            ≡ before.locked_volume_usdc)
        × (after.open_bookings + length (released txs) ≡ before.open_bookings)
  unfolding stats_of
  stats_of-close txs = (
    ap (sum_of (λ r. r.amount_usdc)) (closes-append txs)
        ∙ sum_of-append (λ r. r.amount_usdc) (filter is_close txs) tx,
    ap (sum_of (λ r. r.commission_usdc)) (closes-append txs)
        ∙ sum_of-append (λ r. r.commission_usdc) (filter is_close txs) tx,
    ap length (closes-append txs) ∙ length-append (filter is_close txs) (tx ∷ []),
    omega (
      arith,
      locked_volume_lem (txs ++ (tx ∷ [])),
      locked_volume_lem txs,
      ap (sum_of (λ r. r.amount_usdc)) (still_open-append txs),
      open_sum-close (closed_bookings txs) txs,
    ),
    omega (arith, ap length (still_open-append txs), open_count-close (closed_bookings txs) txs),
  )
