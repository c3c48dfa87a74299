-- ===== src/Tests/Pages.antt =====
-- The theorems on pages, amounts and the chat, at concrete data.
use claw_compute.Prelude.{
  String, true, false, none, some, List, [], ◌∷◌, ◌≡◌, ◌↔◌, refl, inl, inr, if◌then◌else◌, All,
  ◌++◌, ◌<>◌, eqb, show, arith,
}
use claw_compute.ApiTypes.{OfferingOut, LedgerEntry, opening, settle, confirmed, RoleResponse}
use claw_compute.Exec.{done, redirected, not_found}
use claw_compute.Platform.{Request, Fetched, unreachable}
use claw_compute.Session.{bypass_token, cookie_name, read_token}
use claw_compute.Api.{interpret}
use claw_compute.Usdc.{format_duration, hours}
use claw_compute.Usdc.Laws.{format_duration_sixty}
use claw_compute.Seed.{find_seed_offering}
use claw_compute.Auth.{expired, logout}
use claw_compute.Browse.{seed_filtered, browse_view, browse_page, offering_view, offering_detail}
use claw_compute.Download.{unsupported, supported, detect_apple_silicon}
use claw_compute.Browse.Laws.{browse_down, IsUnknown, offering_detail-eq-not_found_iff}
use claw_compute.Forms.{FormData}
use claw_compute.Actions.{sent, unsent, content_of}
use claw_compute.Chat.{optimistic, opened}
use claw_compute.Chat.Sends.{Event, submit, answer, chat_run, send_run, shown, AllAllowed}
use claw_compute.Chat.Laws.{chat_run-shown}
use claw_compute.Dashboard.Home.{dashboard_layout}
use claw_compute.Dashboard.Laws.{layout-expired}
use claw_compute.Tests.World.{a_message, platform, has_cookies, refusing, env, guest, member}

format_duration_sixty_example :
    format_duration (some 7199)
    ≡ (if eqb (hours 7199) 0 then "60m" else show (hours 7199) <> "h " <> "60" <> "m")
format_duration_sixty_example = format_duration_sixty 7199 (omega arith)

abbrev down : Request → Fetched String
down r = unreachable "fetch failed"

abbrev missing : Request → Fetched String
missing r = refusing 404

browse_down_example :
    ((browse_page (platform down) env 2026 (λ t. t) (some "budget") (guest down)).0
      ≡ done (browse_view 2026 (some "budget") (seed_filtered (some "budget")).items))
    × All
        (λ (o : OfferingOut).
          (offering_detail (platform down) env 2026 o.id (guest down)).0
          ≡ done (offering_view 2026 o))
        (seed_filtered (some "budget")).items
browse_down_example =
    browse_down (platform down) env 2026 (guest down) (λ r w. ("fetch failed", refl)) (λ t. t)
      (some "budget")

offering_detail-eq-not_found_iff_example :
    ((offering_detail (platform missing) env 2026 "o9" (guest missing)).0 ≡ not_found) ↔ (
      IsUnknown (platform missing) env 2026 (guest missing) "o9" × (find_seed_offering "o9" ≡ none))
offering_detail-eq-not_found_iff_example =
    offering_detail-eq-not_found_iff (platform missing) env 2026 (guest missing) "o9"

layout-expired_example :
    (dashboard_layout
        (platform missing)
        env
        true
        []
        (expired (platform missing) env (member missing)).1
      ≡ (redirected "/auth/login", (expired (platform missing) env (member missing)).1))
    × (dashboard_layout
          (platform missing)
          env
          true
          []
          (logout (platform missing) env (member missing)).1
        ≡ (redirected "/auth/login", (logout (platform missing) env (member missing)).1))
unfolding bypass_token
layout-expired_example =
    layout-expired (platform missing) env (has_cookies missing) true [] (member missing) refl

abbrev refused : Request → Fetched String
refused r = refusing 401

refused_out :
    (dashboard_layout (platform refused) env true [] (member refused)).0
    ≡ redirected "/auth/expired"
unfolding dashboard_layout read_token cookie_name interpret
refused_out = refl

abbrev consumer : RoleResponse
consumer = record { is_supplier = false; is_consumer = true }

abbrev settled : LedgerEntry
settled = record {
  id = "e1";
  booking_id = "b1";
  kind = settle;
  status = confirmed;
  tx_hash = some "0xabc";
  block_number = some 7;
  consumer_wallet = none;
  supplier_wallet = none;
  supplier_name = some "Ada";
  offering_title = some "Mac mini";
  rate_per_hour_cents = some 50;
  usage_seconds = some 3600;
  amount_usdc = some 500000;
  commission_usdc = some 75000;
  error = none;
  created_at = "2026-01-01";
}

abbrev locked : LedgerEntry
locked = record settled { kind = opening }

abbrev note : String → FormData
note content = ("content", content) ∷ []

-- Two submissions, of which the second is answered first and the first is refused.
abbrev exchange : List Event
exchange =
    submit (note "one") 1 "t1"
    ∷ submit (note "two") 2 "t2"
    ∷ answer "local-2" (sent a_message)
    ∷ answer "local-1" (unsent "Send failed.")
    ∷ []

exchange_allowed : AllAllowed [] [] exchange
unfolding optimistic content_of
exchange_allowed = (
  λ content e. tt,
  (
    λ content e. (refl, tt),
    ((inr (refl, inl refl), (λ w. refl, (λ w. refl, tt))), ((inl refl, tt), tt)),
  ),
)

chat_run-shown_example :
    (chat_run exchange (opened [])).messages ≡ [] ++ shown (send_run exchange [])
chat_run-shown_example = chat_run-shown [] exchange exchange_allowed

-- Firefox names every Mac an Intel Mac, and its version of macOS has a dot.
firefox_unsupported :
    detect_apple_silicon (
      some (record {
        user_agent =
            "Mozilla/5.0 (Macintosh; Intel Mac OS X 10.15; rv:128.0) Gecko/20100101 Firefox/128.0";
        platform = some "MacIntel";
      }))
    ≡ unsupported
unfolding detect_apple_silicon
firefox_unsupported = refl

safari_supported :
    detect_apple_silicon (
      some (record {
        user_agent =
            "Mozilla/5.0 (Macintosh; Intel Mac OS X 10_15_7) AppleWebKit/605.1.15 (KHTML, like Gecko)";
        platform = some "MacIntel";
      }))
    ≡ supported
unfolding detect_apple_silicon
safari_supported = refl
