-- ===== src/Wallet/Laws.antt =====
-- When a wallet is saved (web/src/app/dashboard/wallet/actions.ts).
use mathlib.Core.Path.{subst}
use claw_compute.Prelude.{
  refl, String, ◌≡◌, ◌↔◌, inl, inr, true, false, Option, none, some, [], ◌∷◌, arith, trim,
  Bool-cases,
}
use claw_compute.Exec.{Exec, Outcome, done, throw, redirected, not_found}
use claw_compute.Platform.{Platform, Env, State, Field, str, Fetched}
use claw_compute.Session.{read_token}
use claw_compute.Api.{build, interpret, request}
use claw_compute.Forms.{FormData, entry, Zod, HasZod, valid, invalid, Parsed, trimmed, regex}
use claw_compute.Wallet.{
  is_address, address, send_wallet, success, save_escrow_wallet, save_payout_wallet,
}

module _ (Z : Zod) (H : HasZod Z) where
  named :
      (x : Option String) (f : Field)
      → Z.parse address x ≡ valid f
      → (w : String) × (x ≡ some w) × (f ≡ str (trim w)) × (is_address (trim w) ≡ true)
  unfolding address
  named none f h =
      let (m, more, e) =
        H.absent
          (trimmed ∷ regex is_address "Enter a valid 0x address (40 hex characters)." ∷ []) in
      absurd (ground arith)
  named (some w) f h = elim (Bool-cases (is_address (trim w))) [
    | inl e ↦ (
      w,
      refl,
      ground (arith, H.regex_lem is_address "Enter a valid 0x address (40 hex characters)." w),
      e,
    )
    | inr e ↦
        absurd
          (ground (arith, H.regex_lem is_address "Enter a valid 0x address (40 hex characters)." w))
  ]

  parsed :
      (w : String) → is_address (trim w) ≡ true → Z.parse address (some w) ≡ valid (str (trim w))
  unfolding address
  parsed w h =
      ground (arith, H.regex_lem is_address "Enter a valid 0x address (40 hex characters)." w)

module _ (P : Platform) (env : Env) (Z : Zod) (H : HasZod Z) where
  module _ (call : Field → Exec (State P) (Option (Unit {0}))) (form : FormData) (s : State P) where
    abbrev IsSaved : Type 0
    IsSaved =
        (w : String) × (r : Option (Unit {0})) × (entry "wallet_address" form ≡ some w)
        × (is_address (trim w) ≡ true)
        × ((call (str (trim w)) s).0 ≡ done r)

    saved_of : IsSaved → (send_wallet P env Z call form s).0 ≡ done success
    unfolding send_wallet
    saved_of (w, r, e, a, c) = ground (arith, parsed Z H w a)

    called :
        (f : Field) (y : Outcome (Option (Unit {0})))
        → Z.parse address (entry "wallet_address" form) ≡ valid f
        → (call f s).0 ≡ y
        → (send_wallet P env Z call form s).0 ≡ done success
        → (r : Option (Unit {0})) × ((call f s).0 ≡ done r)
    unfolding send_wallet
    called f (done r) x_eq y_eq h = (r, y_eq)
    called f (throw e) x_eq y_eq h = absurd (ground arith)
    called f (redirected path) x_eq y_eq h = absurd (ground arith)
    called f not_found x_eq y_eq h = absurd (ground arith)

    of_saved :
        (x : Parsed Field)
        → Z.parse address (entry "wallet_address" form) ≡ x
        → (send_wallet P env Z call form s).0 ≡ done success
        → IsSaved
    unfolding send_wallet
    of_saved (invalid issues) x_eq h = absurd (ground arith)
    of_saved (valid f) x_eq h =
        let (w, e, f_eq, a) = named Z H _ f x_eq in
        let (r, c) = called f _ x_eq refl h in
        (w, r, e, a, subst (λ g. (call g s).0 ≡ done r) f_eq c)

    -- A form without an address sends nothing and changes nothing.
    unsaved :
        (x : Parsed Field)
        → Z.parse address (entry "wallet_address" form) ≡ x
        → ((w : String) → entry "wallet_address" form ≡ some w → is_address (trim w) ≡ false)
        → (send_wallet P env Z call form s).1 ≡ s
    unfolding send_wallet
    unsaved (invalid issues) x_eq bad = ground arith
    unsaved (valid f) x_eq bad =
        let (w, e, f_eq, a) = named Z H _ f x_eq in let no = bad w e in absurd (ground arith)

  module _ (form : FormData) (s : State P) where
    -- The API's answer to a request that carries the session and one field.
    abbrev pub reply : String → String → String → String → Fetched P.Json
    reply method path key wallet =
        (P.fetch
          (build env method path (some ((key, str wallet) ∷ [])) true (read_token P env s.jar))
          s.world).0

    -- The form names an address between blanks, and the API accepts that address.
    abbrev pub IsAccepted : String → String → String → Type 0
    IsAccepted method path key =
        (w : String) × (r : Option (Unit {0})) × (entry "wallet_address" form ≡ some w)
        × (is_address (trim w) ≡ true)
        × (interpret P (λ _. tt) (reply method path key (trim w)) ≡ done r)

    -- The escrow wallet is reported as saved exactly if the form names an address, blanks around it
    -- cut off, and the API accepts a PUT of that address under the session.
    pub save_escrow_wallet-eq-success_iff :
        ((save_escrow_wallet P env Z form s).0 ≡ done success)
        ↔ IsAccepted "PUT" "/v1/me/wallet" "wallet_address"
    unfolding save_escrow_wallet request
    save_escrow_wallet-eq-success_iff = (of_saved _ form s _ refl, saved_of _ form s)

    -- The same for the payout wallet, which a PATCH of the supplier sets.
    save_payout_wallet-eq-success_iff :
        ((save_payout_wallet P env Z form s).0 ≡ done success)
        ↔ IsAccepted "PATCH" "/v1/suppliers/me" "payout_wallet"
    unfolding save_payout_wallet request
    save_payout_wallet-eq-success_iff = (of_saved _ form s _ refl, saved_of _ form s)

    -- A form whose wallet is missing or no address sends nothing: the state stays as it is.
    save_wallet_unsent :
        ((w : String) → entry "wallet_address" form ≡ some w → is_address (trim w) ≡ false)
        → ((save_escrow_wallet P env Z form s).1 ≡ s) × ((save_payout_wallet P env Z form s).1 ≡ s)
    unfolding save_escrow_wallet save_payout_wallet
    save_wallet_unsent bad = (unsaved _ form s _ refl bad, unsaved _ form s _ refl bad)
