-- ===== src/Wallet.antt =====
-- web/src/app/dashboard/wallet/actions.ts: saving the escrow wallet and the payout wallet.
pub mod Laws
pub mod Page
use Prim.Native.Char.{code}
use Prim.Native.String.{[], ◌∷◌}
use claw_compute.Prelude.{
  ℕ, zero, suc, String, Bool, true, false, ◌&&◌, ◌||◌, Option, none, some, [], ◌∷◌, eqb, leb, inl,
  inr, ◌++◌,
}
use claw_compute.Exec.{Exec, done, ◌>>=◌, ◌>>◌, pure, attempt, message_or}
use claw_compute.Platform.{Platform, Env, State, Field}
use claw_compute.Api.{unset, put, patch}
use claw_compute.Forms.{
  FormData, entry, Shape, string, trimmed, regex, Zod, valid, invalid, first_issue, FormState,
}

-- `[0-9a-fA-F]`
abbrev pub is_hex : ℕ → Bool
is_hex c = leb 48 c && leb c 57 || (leb 97 c && leb c 102 || leb 65 c && leb c 70)

abbrev pub hex_digits : ℕ → String → Bool
hex_digits zero [] = true
hex_digits zero (c ∷ s) = false
hex_digits (suc n) [] = false
hex_digits (suc n) (c ∷ s) = is_hex (code c) && hex_digits n s

-- `/^0x[0-9a-fA-F]{40}$/`
unfoldable pub is_address : String → Bool
is_address [] = false
is_address (c ∷ []) = false
is_address (c ∷ d ∷ s) = eqb (code c) 48 && (eqb (code d) 120 && hex_digits 40 s)

unfoldable pub address : Shape
address = string (trimmed ∷ regex is_address "Enter a valid 0x address (40 hex characters)." ∷ [])

abbrev failure : String → FormState
failure message = record { error = some message; saved = false }

abbrev pub success : FormState
success = record { error = none; saved = true }

module _ (P : Platform) (env : Env) (Z : Zod) where
  -- `revalidatePath(path)`
  abbrev pub revalidate : String → Exec (State P) (Unit {0})
  revalidate path s = (done tt, record s { revalidated = s.revalidated ++ (path ∷ []) })

  send_wallet : (Field → Exec (State P) (Option (Unit {0}))) → FormData → Exec (State P) FormState
  unfolding address
  send_wallet call form = elim (Z.parse address (entry "wallet_address" form)) [
    | invalid issues ↦ pure (failure (first_issue "Invalid address." issues))
    | valid wallet ↦ do
      sent ← attempt (call wallet)
      elim sent [
        | inl e ↦ pure (failure (message_or "Failed to save wallet." e))
        | inr _ ↦ revalidate "/dashboard/wallet" >> pure success
      ]
  ]

  unfoldable pub save_escrow_wallet : FormData → Exec (State P) FormState
  unfolding send_wallet put
  save_escrow_wallet =
      send_wallet (λ w. put P env (λ _. tt) "/v1/me/wallet" (("wallet_address", w) ∷ []) unset)

  unfoldable pub save_payout_wallet : FormData → Exec (State P) FormState
  unfolding send_wallet patch
  save_payout_wallet =
      send_wallet (λ w. patch P env (λ _. tt) "/v1/suppliers/me" (("payout_wallet", w) ∷ []) unset)
