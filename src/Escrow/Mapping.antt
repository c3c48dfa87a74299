-- ===== src/Escrow/Mapping.antt =====
-- A `mapping` of Solidity: every key has a value, the zero value until one is written. The sum of a
-- measure over the written values is what the accounts of the contract add up to.
use claw_compute.Prelude.{ℕ, ◌+◌, ◌≤◌, ◌≡◌, refl, List, [], ◌∷◌, eqb, if◌then◌else◌, arith}

abbrev pub Mapping : Type 0 → Type 0
Mapping V = List (ℕ × V)

module _ {V : Type 0} where
  -- `m[key]`, with the zero value of the type.
  abbrev pub at : V → ℕ → Mapping V → V
  at d key [] = d
  at d key ((k, v) ∷ m) = if eqb key k then v else at d key m

  -- `m[key] = value`
  abbrev pub put : ℕ → V → Mapping V → Mapping V
  put key value [] = (key, value) ∷ []
  put key value ((k, v) ∷ m) = if eqb key k then (key, value) ∷ m else (k, v) ∷ put key value m

  abbrev pub total : (V → ℕ) → Mapping V → ℕ
  total f [] = 0
  total f ((k, v) ∷ m) = f v + total f m

  pub at-put :
      (d : V) (j key : ℕ) (value : V) (m : Mapping V)
      → at d j (put key value m) ≡ (if eqb j key then value else at d j m)
  at-put d j key value [] = refl
  at-put d j key value ((k, v) ∷ m) = ground (arith, at-put d j key value m)

  pub total-put :
      (f : V → ℕ) (d : V) (key : ℕ) (value : V) (m : Mapping V)
      → f d ≡ 0
      → total f (put key value m) + f (at d key m) ≡ total f m + f value
  total-put f d key value [] h = omega (arith, h)
  total-put f d key value ((k, v) ∷ m) h = ground (arith, total-put f d key value m h)

  pub at-le-total :
      (f : V → ℕ) (d : V) (key : ℕ) (m : Mapping V) → f d ≡ 0 → f (at d key m) ≤ total f m
  at-le-total f d key [] h = omega (arith, h)
  at-le-total f d key ((k, v) ∷ m) h = ground (arith, at-le-total f d key m h)
