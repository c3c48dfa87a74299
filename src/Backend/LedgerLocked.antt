-- ===== src/Backend/LedgerLocked.antt =====
-- The rows that the locked volume of the public ledger counts
-- (backend/src/claw_api/api/v1/ledger.py).
use mathlib.Core.Path.{subst}
use claw_compute.Prelude.{
  ◌≡◌, refl, ap, sym, true, false, ◌&&◌, ◌||◌, List, [], ◌∷◌, ◌++◌, filter, String, ◌==◌,
  if◌then◌else◌, arith, All, Bool-cases, inl, inr, eq_refl, eq_iff,
}
use claw_compute.Backend.Models.{SettlementTx}
use claw_compute.Backend.PublicLedger.{
  is_open, sum_of, is_in, bookings_of, closed_bookings, is_still_open, still_open, stats_of,
}

pub is_in-append :
    (id b : String) (xs : List String) → is_in id (xs ++ (b ∷ [])) ≡ (is_in id xs || id == b)
is_in-append id b [] = ground arith
is_in-append id b (x ∷ xs) = ground (arith, is_in-append id b xs)

-- A booking with an open row that is kept by the filter is among those of the rows that are kept.
kept_again :
    (closed : List String) (rows : List SettlementTx) (tx : SettlementTx)
    → is_in tx.booking_id (bookings_of (filter (is_still_open closed) rows)) ≡ true
    → is_in tx.booking_id closed ≡ false
kept_again closed [] tx h = ground arith
kept_again closed (r ∷ rows) tx h = grind (arith, kept_again closed rows tx, eq_iff)

-- Every row that is kept has its booking among the given ones.
abbrev Listed : List String → List String → List SettlementTx → Type 0
Listed closed ids =
    All (λ (tx : SettlementTx). is_still_open closed tx ≡ true → is_in tx.booking_id ids ≡ true)

Listed-cons :
    (closed ids : List String) (id : String) (rows : List SettlementTx)
    → Listed closed ids rows
    → Listed closed (id ∷ ids) rows
Listed-cons closed ids id [] h = tt
Listed-cons closed ids id (r ∷ rows) (h, hs) =
    (λ still. ground (arith, h still), Listed-cons closed ids id rows hs)

filter_taken :
    (closed : List String) (r : SettlementTx) (rows : List SettlementTx)
    → is_still_open closed r ≡ true
    → filter (is_still_open closed) (r ∷ rows) ≡ r ∷ filter (is_still_open closed) rows
filter_taken closed r rows h = rw h

filter_left :
    (closed : List String) (r : SettlementTx) (rows : List SettlementTx)
    → is_still_open closed r ≡ false
    → filter (is_still_open closed) (r ∷ rows) ≡ filter (is_still_open closed) rows
filter_left closed r rows h = rw h

kept-Listed :
    (closed : List String) (rows : List SettlementTx)
    → Listed closed (bookings_of (filter (is_still_open closed) rows)) rows
kept-Listed closed [] = tt
kept-Listed closed (r ∷ rows) = elim (Bool-cases (is_still_open closed r)) [
  | inl still ↦
      let kept = filter (is_still_open closed) rows in
      subst (λ all. Listed closed (bookings_of all) (r ∷ rows))
        (sym (filter_taken closed r rows still))
        (
          λ again. ground (arith, eq_refl r.booking_id),
          Listed-cons closed (bookings_of kept) r.booking_id rows (kept-Listed closed rows),
        )
  | inr gone ↦
      subst (λ all. Listed closed (bookings_of all) (r ∷ rows))
        (sym (filter_left closed r rows gone))
        (λ still. absurd (ground arith), kept-Listed closed rows)
]

agree :
    (closed ids : List String) (r : SettlementTx)
    → (is_in r.booking_id ids ≡ true → is_in r.booking_id closed ≡ false)
    → (is_still_open closed r ≡ true → is_in r.booking_id ids ≡ true)
    → (is_open r && is_in r.booking_id ids) ≡ is_still_open closed r
agree closed ids r only kept = elim (Bool-cases (is_in r.booking_id ids)) [
  | inl listed ↦ rw (listed, only listed) (ground arith)
  | inr not_listed ↦ elim (Bool-cases (is_still_open closed r)) [
    | inl still ↦ absurd (ground (arith, kept still))
    | inr gone ↦ rw (not_listed, gone) (ground arith)
  ]
]

same_filter :
    (closed ids : List String) (rows : List SettlementTx)
    → ((tx : SettlementTx) → is_in tx.booking_id ids ≡ true → is_in tx.booking_id closed ≡ false)
    → Listed closed ids rows
    → filter (λ tx. is_open tx && is_in tx.booking_id ids) rows ≡ filter (is_still_open closed) rows
same_filter closed ids [] only h = refl
same_filter closed ids (r ∷ rows) only (h, hs) = rw (agree closed ids r (only r) h) (
    ap (λ rest. if is_still_open closed r then r ∷ rest else rest)
      (same_filter closed ids rows only hs))

-- The query for the locked volume, which asks for the bookings of the rows that are still open, counts
-- these rows and no others.
pub locked_volume_lem :
    (txs : List SettlementTx)
    → (stats_of txs).locked_volume_usdc ≡ sum_of (λ tx. tx.amount_usdc) (still_open txs)
unfolding stats_of
locked_volume_lem txs =
    let closed = closed_bookings txs in
    ap (sum_of (λ tx. tx.amount_usdc)) (
      same_filter closed (bookings_of (still_open txs)) txs (λ tx. kept_again closed txs tx)
        (kept-Listed closed txs))
