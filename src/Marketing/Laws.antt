-- ===== src/Marketing/Laws.antt =====
-- The home page (web/src/app/page.tsx) while the API cannot be reached.
use claw_compute.Prelude.{ℕ, ◌≡◌, false, none, arith}
use claw_compute.Exec.{done}
use claw_compute.Platform.{Platform, Env, State}
use claw_compute.Api.{request, build, interpret}
use claw_compute.SafeApi.{safe_get}
use claw_compute.Usdc.{empty_ledger}
use claw_compute.Browse.Laws.{IsDown}
use claw_compute.Marketing.Page.{marketing_view, home_page}

-- While no request reaches the API the home page shows the figures of an empty ledger.
home_down :
    (P : Platform) (env : Env) (year : ℕ) (s : State P) (down : IsDown P env year)
    → (home_page P env year s).0 ≡ done (marketing_view year empty_ledger)
unfolding home_page safe_get request interpret
home_down P env year s down =
    let (m, gone) = down (build env "GET" "/v1/ledger?limit=20" none false none) s.world in
    ground arith
