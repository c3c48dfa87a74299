-- ===== src/Seed.antt =====
-- web/src/lib/seed.ts: the offerings that stand in for an API which cannot be reached.
use claw_compute.Prelude.{String, Option, List, [], ◌∷◌, ◌==◌, find}
use claw_compute.ApiTypes.{OfferingOut, active}

abbrev pub mac_studio_m3_max : OfferingOut
mac_studio_m3_max = record {
  id = "seed-mac-studio-m3-max";
  supplier_id = "seed-supplier-1";
  title = "Mac Studio M3 Max · 64 GB · MLX-tuned";
  description =
      "Dedicated Mac Studio M3 Max with 64 GB unified memory. mlx-lm pre-warmed with Qwen3.5-7B-Instruct-4bit. Sub-second sandbox boot via Apple `container`. 1 Gbps fibre.";
  price_per_hour_cents = 180;
  capability_tags = "macos" ∷ "mlx" ∷ "m3-max" ∷ "qwen3.5" ∷ "64gb" ∷ [];
  status = active;
}

abbrev pub macbook_m3_pro : OfferingOut
macbook_m3_pro = record {
  id = "seed-macbook-m3-pro";
  supplier_id = "seed-supplier-2";
  title = "MacBook Pro M3 Pro · 36 GB · low-latency";
  description =
      "MacBook Pro M3 Pro 14\". 36 GB unified memory. Plugged in 24/7, fibre uplink, located in EU-West for low transatlantic latency.";
  price_per_hour_cents = 120;
  capability_tags = "macos" ∷ "mlx" ∷ "m3-pro" ∷ "eu-west" ∷ [];
  status = active;
}

abbrev pub mac_mini_m4 : OfferingOut
mac_mini_m4 = record {
  id = "seed-mac-mini-m4";
  supplier_id = "seed-supplier-3";
  title = "Mac mini M4 · 24 GB · always-on";
  description =
      "Bargain entry tier. Mac mini M4 with 24 GB. Great for Gemma 3 12B and small Qwen models. Always-on home lab, residential fibre.";
  price_per_hour_cents = 50;
  capability_tags = "macos" ∷ "mlx" ∷ "m4" ∷ "gemma" ∷ "budget" ∷ [];
  status = active;
}

abbrev pub mac_studio_m4_max : OfferingOut
mac_studio_m4_max = record {
  id = "seed-mac-studio-m4-max";
  supplier_id = "seed-supplier-4";
  title = "Mac Studio M4 Max · 128 GB · big-model tier";
  description =
      "Top-of-line M4 Max with 128 GB. Comfortably runs Qwen3.5-30B-A3B (MoE) at >100 tok/s. Symmetric 2.5 Gbps fibre. Dedicated machine.";
  price_per_hour_cents = 350;
  capability_tags = "macos" ∷ "mlx" ∷ "m4-max" ∷ "qwen-30b" ∷ "moe" ∷ "128gb" ∷ [];
  status = active;
}

abbrev pub macbook_m3_max : OfferingOut
macbook_m3_max = record {
  id = "seed-macbook-m3-max";
  supplier_id = "seed-supplier-5";
  title = "MacBook Pro M3 Max · 48 GB · agent-tuned";
  description =
      "MacBook Pro M3 Max 16\" with 48 GB. Pre-warmed with Trinity Mini for agentic workloads. AU-East region. Plugged in business hours only — pause-aware bookings.";
  price_per_hour_cents = 200;
  capability_tags = "macos" ∷ "mlx" ∷ "m3-max" ∷ "trinity-mini" ∷ "ap-southeast" ∷ [];
  status = active;
}

abbrev pub imac_m3 : OfferingOut
imac_m3 = record {
  id = "seed-imac-m3";
  supplier_id = "seed-supplier-6";
  title = "iMac M3 · 24 GB · learner tier";
  description =
      "Cheapest active offering. iMac M3 24 GB. Limited to llama.cpp models <8B but rock-solid uptime. US-Central, residential gigabit.";
  price_per_hour_cents = 30;
  capability_tags = "macos" ∷ "llama-cpp" ∷ "m3" ∷ "us-central" ∷ "budget" ∷ [];
  status = active;
}

unfoldable pub seed_offerings : List OfferingOut
seed_offerings =
    mac_studio_m3_max ∷ macbook_m3_pro ∷ mac_mini_m4 ∷ mac_studio_m4_max ∷ macbook_m3_max ∷ imac_m3
    ∷ []

unfoldable pub find_seed_offering : String → Option OfferingOut
unfolding seed_offerings
find_seed_offering id = find (λ o. o.id == id) seed_offerings
