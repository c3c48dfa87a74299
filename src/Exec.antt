-- ===== src/Exec.antt =====
-- Server code: it changes a state and ends with a value, a thrown exception, a redirect
-- (`redirect` of next/navigation), or the not-found page (`notFound`). What was written before an
-- exception stays written, so the state comes back beside it too.
use Prim.Native.Nat.{ℕ}
use mathlib.Core.Bool.{Bool}
use mathlib.Core.Logic.{◌⊎◌, inl, inr}
use claw_compute.Prelude.{if◌then◌else◌}
use Prim.Native.String.{String}

-- What a `catch` receives: an `ApiError`, another instance of `Error`, or any other value.
pub data Exception : Type 0 where
  api_error : (status : ℕ) → (message : String) → Exception
  error : (message : String) → Exception
  thrown_value : Exception

pub data Outcome {ℓ} (A : Type ℓ) : Type ℓ where
  done : A → Outcome A
  throw : Exception → Outcome A
  redirected : String → Outcome A
  not_found : Outcome A

abbrev pub Exec : Type 0 → Type 0 → Type 0
Exec S A = S → Outcome A × S

module _ {S A : Type 0} where
  abbrev pub pure : A → Exec S A
  pure a s = (done a, s)

  abbrev pub raise : Exception → Exec S A
  raise e s = (throw e, s)

  abbrev pub redirect : String → Exec S A
  redirect path s = (redirected path, s)

  abbrev pub missing : Exec S A
  missing s = (not_found, s)

module _ {S A B : Type 0} where
  abbrev pub continue : Outcome A → (A → Exec S B) → Exec S B
  continue (done a) f s = f a s
  continue (throw e) f s = (throw e, s)
  continue (redirected path) f s = (redirected path, s)
  continue not_found f s = (not_found, s)

  infixl 5 ◌>>=◌ ◌>>◌
  abbrev pub ◌>>=◌ : Exec S A → (A → Exec S B) → Exec S B
  ◌>>=◌ m f s = let (r, s') = m s in continue r f s'

  abbrev pub ◌>>◌ : Exec S A → Exec S B → Exec S B
  m >> n = m >>= λ _. n

module _ {S A : Type 0} where
  abbrev pub handle : Outcome A → (Exception → Exec S A) → Exec S A
  handle (done a) h s = (done a, s)
  handle (throw e) h s = h e s
  handle (redirected path) h s = (redirected path, s)
  handle not_found h s = (not_found, s)

  -- `try { m } catch (e) { h(e) }`. No `redirect` or `notFound` is called inside a `try` block.
  abbrev pub try : Exec S A → (Exception → Exec S A) → Exec S A
  try m h s = let (r, s') = m s in handle r h s'

-- `e instanceof Error ? e.message : fallback`
abbrev pub message_or : String → Exception → String
message_or fallback (api_error status message) = message
message_or fallback (error message) = message
message_or fallback thrown_value = fallback

module _ {S A : Type 0} where
  abbrev pub caught : Outcome A → Exec S (Exception ⊎ A)
  caught (done a) s = (done (inr a), s)
  caught (throw e) s = (done (inl e), s)
  caught (redirected path) s = (redirected path, s)
  caught not_found s = (not_found, s)

  -- The block of a `try` whose `catch` decides what happens next.
  abbrev pub attempt : Exec S A → Exec S (Exception ⊎ A)
  attempt m s = let (r, s') = m s in caught r s'

module _ {S A B : Type 0} where
  -- The rejections of the two calls, that of the one which settles first before the other.
  abbrev pub both_done : Bool → Exception ⊎ A → Exception ⊎ B → Exec S (A × B)
  both_done first (inr a) (inr b) = pure (a, b)
  both_done first (inr a) (inl f) = raise f
  both_done first (inl e) (inr b) = raise e
  both_done first (inl e) (inl f) = raise (if first then e else f)

  -- `Promise.all([m, n])`: both run, and the first rejection is what the caller sees. The schedule
  -- says whether `m` comes before `n`.
  abbrev pub both : Bool → Exec S A → Exec S B → Exec S (A × B)
  both first m n =
      if first
      then (attempt m >>= λ a. attempt n >>= λ b. both_done first a b)
      else (attempt n >>= λ b. attempt m >>= λ a. both_done first a b)
