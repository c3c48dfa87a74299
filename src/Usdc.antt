-- ===== src/Usdc.antt =====
-- web/src/lib/usdc.ts: amounts, durations and links of the settlement ledger. An amount is an integer
-- of base units, a million to the dollar. `toLocaleString("en-US", …)` rounds to cents, half away from
-- zero, and groups the dollars by three digits.
pub mod Laws
use claw_compute.Prelude.{
  ℕ, suc, ◌+◌, ◌/◌, ◌%◌, String, Option, none, some, show, show_grouped, pad_two, ◌<>◌, eqb, ltb,
  if◌then◌else◌, slice_to, slice_last, chars, ◌-◌, ◌==◌, is_empty, [], false,
}
use claw_compute.Prelude.Int.{ℤ, pos, negsuc}
use claw_compute.ApiTypes.{LedgerOut}

-- An amount in cents.
unfoldable pub cents : ℕ → ℕ
cents units = (units + 5000) / 10000

unfoldable pub dollars : ℕ → String
unfolding cents show_grouped pad_two
dollars units = "$" <> show_grouped (cents units / 100) <> "." <> pad_two (cents units % 100)

unfoldable pub format_usdc : Option ℤ → String
unfolding dollars
format_usdc none = "—"
format_usdc (some (pos units)) = dollars units
format_usdc (some (negsuc n)) = "-" <> dollars (suc n)

unfoldable pub hours : ℕ → ℕ
hours seconds = seconds / 3600

-- `Math.round((seconds % 3600) / 60)`
unfoldable pub minutes : ℕ → ℕ
minutes seconds = (seconds % 3600 + 30) / 60

unfoldable pub format_duration : Option ℕ → String
unfolding hours minutes show
format_duration none = "—"
format_duration (some seconds) =
    if ltb seconds 60
    then show seconds <> "s"
    else if eqb (hours seconds) 0
    then show (minutes seconds) <> "m"
    else if eqb (minutes seconds) 0
    then show (hours seconds) <> "h"
    else show (hours seconds) <> "h " <> show (minutes seconds) <> "m"

abbrev shortened : String → ℕ → String
shortened hash n = slice_to (n + 2) hash <> "…" <> slice_last 4 hash

unfoldable pub short_hash : Option String → ℕ → String
short_hash none n = "—"
short_hash (some hash) n = if is_empty hash then "—" else shortened hash n

-- `explorer.replace(/\\/$/, "")`
unfoldable pub strip_slash : String → String
strip_slash url = if slice_last 1 url == "/" then slice_to (chars url - 1) url else url

unfoldable pub tx_url : String → String → String
unfolding strip_slash
tx_url explorer hash = strip_slash explorer <> "/tx/" <> hash

unfoldable pub address_url : String → String → String
unfolding strip_slash
address_url explorer address = strip_slash explorer <> "/address/" <> address

unfoldable pub empty_ledger : LedgerOut
empty_ledger = record {
  chain = record {
    enabled = false;
    chain_name = "Arc Testnet";
    chain_id = 5042002;
    explorer_url = "https://testnet.arcscan.app";
    escrow_address = "";
    usdc_address = "0x3600000000000000000000000000000000000000";
    commission_bps = 1500;
  };
  stats = record {
    settled_volume_usdc = 0;
    commission_usdc = 0;
    locked_volume_usdc = 0;
    settlements = 0;
    open_bookings = 0;
  };
  items = [];
  total = 0;
}
