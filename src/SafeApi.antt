-- ===== src/SafeApi.antt =====
-- web/src/lib/safe-api.ts: a public GET that falls back to a seed value. Warnings to the console are
-- left out.
pub mod Laws
use claw_compute.Prelude.{
  ℕ, String, Bool, true, false, Option, none, some, ◌&&◌, ◌||◌, ltb, leb, if◌then◌else◌, not,
}
use claw_compute.Exec.{Exec, Exception, api_error, error, thrown_value, try, pure, raise}
use claw_compute.Platform.{Platform, Env, State}
use claw_compute.Api.{given, get, request}

-- `options.fallbackOn4xx`, left out or given.
abbrev pub is_true : Option Bool → Bool
is_true (some b) = b
is_true none = false

abbrev pub is_false : Option Bool → Bool
is_false (some b) = not b
is_false none = false

module _ (P : Platform) (env : Env) where
  recover : {A : Type 0} → A → Option Bool → Exception → Exec (State P) (Option A)
  recover fallback on_4xx (api_error status message) =
      if is_false on_4xx && ltb status 500
      then raise (api_error status message)
      else if leb 500 status || is_true on_4xx
      then pure (some fallback)
      else raise (api_error status message)
  recover fallback on_4xx (error message) = pure (some fallback)
  recover fallback on_4xx thrown_value = pure (some fallback)

  unfoldable pub safe_get :
      {A : Type 0} → (P.Json → A) → String → A → Option Bool → Exec (State P) (Option A)
  unfolding recover get request
  safe_get read path fallback on_4xx =
      try (get P env read path (given false)) (recover fallback on_4xx)
