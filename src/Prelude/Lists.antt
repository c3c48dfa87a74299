-- ===== src/Prelude/Lists.antt =====
-- Lists measured by native numbers, under the library's names, and predicates on their entries.
use Prim.Native.Nat.{ℕ, zero, suc, ◌+◌}
use mathlib.Core.Path.{◌≡◌, refl}
use mathlib.Core.Bool.{Bool, true}
use mathlib.Core.List.{List, [], ◌∷◌, ◌++◌, map}
use mathlib.Core.Option.{Option, none, some}
use native.Mathlib.Omega.{arith}
use mathlib.Core.Logic.{inl, inr}
use claw_compute.Prelude.Tests.{if◌then◌else◌, Bool-cases}

module _ {ℓ} {A : Type ℓ} where
  abbrev pub length : List A → ℕ
  length [] = 0
  length (x ∷ xs) = suc (length xs)

  abbrev pub take : ℕ → List A → List A
  take zero xs = []
  take (suc n) [] = []
  take (suc n) (x ∷ xs) = x ∷ take n xs

  -- `filter` and `find` of JavaScript, over a test into `Bool`.
  abbrev pub filter : (A → Bool) → List A → List A
  filter p [] = []
  filter p (x ∷ xs) = if p x then x ∷ filter p xs else filter p xs

  abbrev pub find : (A → Bool) → List A → Option A
  find p [] = none
  find p (x ∷ xs) = if p x then some x else find p xs

  pub length-append : (xs ys : List A) → length (xs ++ ys) ≡ length xs + length ys
  length-append [] ys = omega arith
  length-append (x ∷ xs) ys = omega (arith, length-append xs ys)

module _ {ℓ κ} {A : Type ℓ} (P : A → Type κ) where
  abbrev pub All : List A → Type κ
  All [] = Unit
  All (x ∷ xs) = P x × All xs

  pub All-append : (xs ys : List A) → All xs → All ys → All (xs ++ ys)
  All-append [] ys hx hy = hy
  All-append (x ∷ xs) ys (p, hx) hy = (p, All-append xs ys hx hy)

module _ {ℓ} {A : Type ℓ} where
  abbrev pub first_of : Option (A × List A) → Option A
  first_of none = none
  first_of (some (x, xs)) = some x

  -- What is left of the list after a change, or the list itself if there was none.
  abbrev pub rest_or : List A → Option (A × List A) → List A
  rest_or xs none = xs
  rest_or xs (some (y, ys)) = ys

-- The first entry that passes the test is changed in its place. The entry is given as it was.
module _ {ℓ} {A : Type ℓ} (p : A → Bool) (f : A → A) where
  abbrev pub update_first : List A → Option (A × List A)
  update_first [] = none
  update_first (x ∷ xs) =
      if p x
      then some (x, f x ∷ xs)
      else elim (update_first xs) [ none ↦ none | some (y, ys) ↦ some (y, x ∷ ys) ]

  pub update_first-find : (xs : List A) → first_of (update_first xs) ≡ find p xs
  update_first-find [] = refl
  update_first-find (x ∷ xs) = ground (arith, update_first-find xs)

module _ {ℓ κ} {A : Type ℓ} (P : A → Type κ) where
  pub All-map :
      (g : A → A) → ((x : A) → P x → P (g x)) → (xs : List A) → All P xs → All P (map g xs)
  All-map g keep [] h = tt
  All-map g keep (x ∷ xs) (h, hs) = (keep x h, All-map g keep xs hs)

  All-found :
      (x : A) (xs : List A) (o : Option (A × List A))
      → P x
      → All P (rest_or xs o)
      → All P (rest_or (x ∷ xs) (elim o [ none ↦ none | some (y, ys) ↦ some (y, x ∷ ys) ]))
  All-found x xs none h hs = (h, hs)
  All-found x xs (some (y, ys)) h hs = (h, hs)

  pub All-update_first :
      (p : A → Bool) (f : A → A)
      → ((x : A) → P x → p x ≡ true → P (f x))
      → (xs : List A) → All P xs
      → All P (rest_or xs (update_first p f xs))
  All-update_first p f keep [] h = tt
  All-update_first p f keep (x ∷ xs) (h, hs) = elim (Bool-cases (p x)) [
    | inl passes ↦ rw passes (keep x h passes, hs)
    | inr fails ↦
        rw fails (All-found x xs (update_first p f xs) h (All-update_first p f keep xs hs))
  ]
