-- ===== src/SafeApi/Laws.antt =====
-- When a public read throws, and that it depends on no session (web/src/lib/safe-api.ts).
use claw_compute.Prelude.{
  refl, ℕ, String, ◌≡◌, ◌≢◌, ◌<◌, ◌↔◌, Bool, true, false, Option, none, some, arith,
}
use claw_compute.Exec.{handle, Exception, throw, api_error}
use claw_compute.Platform.{unreachable, Platform, Env, State, Content, response, Fetched}
use claw_compute.Api.{build, is_ok, error_detail, interpret}
use claw_compute.SafeApi.{safe_get, recover}

module _ (P : Platform) (env : Env) where
  -- The answer that the server gives to a public GET.
  abbrev pub answer : String → State P → Fetched P.Json
  answer path s = (P.fetch (build env "GET" path none false none) s.world).0

  -- A refusal that the read passes on: a status that is no success, below 500, with the fallback for
  -- it not asked for.
  pub record IsRefused (on_4xx : Option Bool) (a : Fetched P.Json) (e : Exception) : Type 0 where
    pub status : ℕ
    pub status_text : String
    pub content : Content P.Json
    pub answered : a ≡ response status status_text content
    pub failed : is_ok status ≡ false
    pub below : status < 500
    pub unasked : on_4xx ≢ some true
    pub same : e ≡ api_error status (error_detail P status_text content)

  module _ {A : Type 0} (read : P.Json → A) (fallback : A) where
    IsRefused-of-throw :
        (on_4xx : Option Bool) (a : Fetched P.Json) (e : Exception) (s : State P)
        → (handle (interpret P read a) (recover P env fallback on_4xx) s).0 ≡ throw e
        → IsRefused on_4xx a e
    unfolding recover interpret
    IsRefused-of-throw on_4xx (unreachable message) e s h = cc
    IsRefused-of-throw on_4xx (response status status_text content) e s h = record {
      status = status;
      status_text = status_text;
      content = content;
      answered = refl;
      failed = ground arith;
      below = ground arith;
      unasked = ground arith;
      same = ground arith;
    }

    throw-of-IsRefused :
        (on_4xx : Option Bool) (a : Fetched P.Json) (e : Exception) (s : State P)
        → IsRefused on_4xx a e
        → (handle (interpret P read a) (recover P env fallback on_4xx) s).0 ≡ throw e
    unfolding recover interpret
    throw-of-IsRefused on_4xx a e s r = ground arith

  -- A public read throws exactly if the server answered with a status that is no success and is below
  -- 500, and the fallback for such a status was not asked for; what it throws is the `ApiError` with
  -- that status. An unreachable server, a broken body and a server error never throw.
  pub safe_get-eq-throw_iff :
      {A : Type 0} (read : P.Json → A) (path : String) (fallback : A) (on_4xx : Option Bool)
      (s : State P) (e : Exception)
      → ((safe_get P env read path fallback on_4xx s).0 ≡ throw e)
        ↔ IsRefused on_4xx (answer path s) e
  unfolding safe_get
  safe_get-eq-throw_iff read path fallback on_4xx s e = (
    IsRefused-of-throw read fallback on_4xx (answer path s) e _,
    throw-of-IsRefused read fallback on_4xx (answer path s) e _,
  )

  -- It reads no session: with other cookies the outcome and the world after it are the same, and the
  -- cookies stay as they were.
  safe_get_public :
      {A : Type 0} (read : P.Json → A) (path : String) (fallback : A) (on_4xx : Option Bool)
      (s : State P) (jar : P.Jar)
      → safe_get P env read path fallback on_4xx (record s { jar = jar }) ≡ (
        (safe_get P env read path fallback on_4xx s).0,
        record (safe_get P env read path fallback on_4xx s).1 { jar = jar },
      )
  unfolding safe_get
  safe_get_public read path fallback on_4xx s jar = ground arith
