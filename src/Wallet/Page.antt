-- ===== src/Wallet/Page.antt =====
-- web/src/app/dashboard/wallet: the form of an address (WalletForm.tsx) and the page (page.tsx).
use claw_compute.Prelude.{
  String, Bool, true, false, not, ◌&&◌, Option, none, some, [], ◌∷◌, eqb, if◌then◌else◌, inl, inr,
}
use claw_compute.Exec.{Exec, Exception, api_error, error, thrown_value, ◌>>=◌, pure, raise, attempt}
use claw_compute.ApiTypes.{UserOut, SupplierOut}
use claw_compute.Platform.{Platform, Env, State}
use claw_compute.Session.{truthy, default_to}
use claw_compute.Api.{unset, get, request, defined}
use claw_compute.Forms.{FormState}
use claw_compute.Html.{Html, el, leaf, say, when, for_some, or_else, flag, ◌<+>◌}

unfoldable pub wallet_submit : Bool → Html
wallet_submit pending =
    el "Button" (("type", "submit") ∷ ("disabled", flag pending) ∷ [])
      (say (if pending then "Saving…" else "Save wallet"))

-- `state?.error`, if it is not empty
abbrev pub shown_error : Option FormState → Option String
shown_error none = none
shown_error (some state) = truthy state.error

abbrev has_error : Option String → Bool
has_error none = false
has_error (some message) = true

abbrev pub is_saved : Option FormState → Bool
is_saved none = false
is_saved (some state) = state.saved && not (has_error (truthy state.error))

unfoldable pub wallet_form : String → String → Option String → Option FormState → Bool → Html
unfolding wallet_submit
wallet_form action input_id current state pending = el "form" (("action", action) ∷ []) (
    el "div" [] (
      el "Label" (("htmlFor", input_id) ∷ []) (say "Address")
      <+> leaf "Input" (
          ("id", input_id)
          ∷ ("name", "wallet_address")
          ∷ ("required", "true")
          ∷ ("pattern", "0x[0-9a-fA-F]{40}")
          ∷ ("title", "0x followed by 40 hex characters")
          ∷ ("defaultValue", default_to "" current)
          ∷ ("placeholder", "0x0000000000000000000000000000000000000000")
          ∷ []))
    <+> for_some (shown_error state) (λ message.
      el "Alert" (("variant", "destructive") ∷ []) (el "AlertDescription" [] (say message)))
    <+> when (is_saved state) (el "p" [] (say "wallet saved"))
    <+> wallet_submit pending)

unfoldable pub current_address : Option String → Html
current_address address = el "div" [] (
    el "p" [] (say "current address")
    <+> or_else (truthy address) (λ a. el "p" [] (say a)) (el "p" [] (say "not set")))

unfoldable pub wallet_view : UserOut → Option SupplierOut → Html
unfolding wallet_form current_address
wallet_view me supplier = el "div" [] (
    el "header" [] (el "p" [] (say "usdc · on-chain") <+> el "h1" [] (say "Wallet"))
    <+> el "div" [] (
        el "section" [] (
          el "p" [] (say "all accounts")
          <+> el "h2" [] (say "Escrow wallet")
          <+> el "p" [] (
              say
                "The address that deposits USDC into ClawEscrow and gets escrow locks charged when you book a machine. Fund it before booking.")
          <+> current_address me.wallet_address
          <+> wallet_form "saveEscrowWallet" "escrow-wallet" me.wallet_address none false)
        <+> for_some (supplier) (λ supplier. el "section" [] (
            el "p" [] (say "supplier")
            <+> el "h2" [] (say "Payout wallet")
            <+> el "p" [] (
                say
                  "85% of every settled hour lands here as claimable USDC on the escrow contract.")
            <+> current_address supplier.payout_wallet
            <+> wallet_form "savePayoutWallet" "payout-wallet" supplier.payout_wallet none false))
        <+> el "Link" (("href", "/ledger") ∷ []) (
            el "span" [] (
              say "All settlements are public —"
              <+> say " "
              <+> el "span" [] (say "see the ledger")
              <+> say ".")
            <+> leaf "ArrowRight" [])))

module _ (P : Platform) (env : Env) where
  not_a_supplier : Exception → Exec (State P) (Option SupplierOut)
  not_a_supplier (api_error status message) =
      if eqb status 404 then pure none else raise (api_error status message)
  not_a_supplier (error message) = raise (error message)
  not_a_supplier thrown_value = raise thrown_value

  unfoldable pub wallet_page : Exec (State P) Html
  unfolding get request not_a_supplier wallet_view
  wallet_page = do
    answer ← get P env P.as_user "/v1/me" unset
    found ← attempt (get P env P.as_supplier "/v1/suppliers/me" unset)
    supplier ← elim found [ inl e ↦ not_a_supplier e | inr s ↦ pure s ]
    me ← defined P answer
    pure (wallet_view me supplier)
