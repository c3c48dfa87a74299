-- ===== src/Tests/Server.antt =====
-- The theorems on sessions, requests and form actions, at concrete servers.
use claw_compute.Prelude.{
  String, false, none, some, [], ◌∷◌, ◌≡◌, ◌↔◌, ◌⊎◌, refl, ◌==◌, if◌then◌else◌, arith, trim,
}
use claw_compute.ApiTypes.{OfferingOut}
use claw_compute.Exec.{done, throw, api_error}
use claw_compute.Platform.{Request, Fetched}
use claw_compute.SafeApi.{safe_get}
use claw_compute.SafeApi.Laws.{safe_get-eq-throw_iff, IsRefused, answer}
use claw_compute.Auth.{verify}
use claw_compute.Auth.Laws.{verify-eq-dashboard_iff, IsExchanged, IsSignedIn}
use claw_compute.Forms.{FormData}
use claw_compute.Wallet.{save_escrow_wallet, is_address, success}
use claw_compute.Wallet.Laws.{save_escrow_wallet-eq-success_iff, IsAccepted}
use claw_compute.Actions.{send_message, sent}
use claw_compute.Actions.Laws.{send_message-eq-sent_iff, IsSent}
use claw_compute.Tests.World.{
  a_message, an_offering, platform, ok, refusing, env, guest, member, zod, has_zod,
}

abbrev up : Request → Fetched String
up r = ok "fresh"

abbrev used : Request → Fetched String
used r = if r.method == "POST" then refusing 401 else ok "me"

safe_get-eq-throw_iff_example :
    ((safe_get (platform used) env (λ j. j) "/v1/ledger" "seed" none (guest used)).0
      ≡ throw (api_error 404 "no"))
    ↔ IsRefused
        (platform used)
        env
        none
        (answer (platform used) env "/v1/ledger" (guest used))
        (api_error 404 "no")
safe_get-eq-throw_iff_example =
    safe_get-eq-throw_iff (platform used) env (λ j. j) "/v1/ledger" "seed" none (guest used)
      (api_error 404 "no")

verify-eq-dashboard_iff_example :
    ((verify (platform used) env (some "link") (member used)).0 ≡ done "/dashboard") ↔ (
      IsExchanged (platform used) env "link" (member used)
      ⊎ IsSignedIn (platform used) env "link" (member used))
verify-eq-dashboard_iff_example =
    verify-eq-dashboard_iff (platform used) env "link" (member used) refl

abbrev wallet_form : String → FormData
wallet_form w = ("wallet_address", w) ∷ []

save_escrow_wallet-eq-success_iff_example :
    ((save_escrow_wallet
        (platform up)
        env
        zod
        (wallet_form " 0x00112233445566778899aabbccddeeff00112233 ")
        (member up)).0
      ≡ done success)
    ↔ IsAccepted
        (platform up)
        env
        zod
        has_zod
        (wallet_form " 0x00112233445566778899aabbccddeeff00112233 ")
        (member up)
        "PUT"
        "/v1/me/wallet"
        "wallet_address"
save_escrow_wallet-eq-success_iff_example =
    save_escrow_wallet-eq-success_iff (platform up) env zod has_zod
      (wallet_form " 0x00112233445566778899aabbccddeeff00112233 ") (member up)

too_short : is_address (trim "0x12") ≡ false
unfolding is_address trim
too_short = refl

not_an_address : (w : String) → some "0x12" ≡ some w → is_address (trim w) ≡ false
not_an_address w e = ground (arith, too_short)

abbrev offering_form : FormData
offering_form =
    ("title", "Mac mini")
    ∷ ("price_per_hour_cents", "50")
    ∷ ("capability_tags", "macos, mlx")
    ∷ ("status", "draft")
    ∷ []

abbrev message_form : String → FormData
message_form content = ("content", content) ∷ []

send_message-eq-sent_iff_example :
    ((send_message (platform up) env zod "b1" (message_form " hello ") (member up)).0
      ≡ done (sent a_message))
    ↔ IsSent (platform up) env zod "b1" (message_form " hello ") (member up) a_message
send_message-eq-sent_iff_example =
    send_message-eq-sent_iff (platform up) env zod "b1" (message_form " hello ") (member up)
      a_message

abbrev a_mini : OfferingOut
a_mini = record an_offering { capability_tags = "macos" ∷ "m3-max" ∷ [] }
