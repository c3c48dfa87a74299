-- ===== src/Dashboard/Laws.antt =====
-- Who sees the dashboard, and where its links lead (web/src/app/dashboard/layout.tsx, page.tsx and
-- web/src/components/dashboard/Sidebar.tsx).
use claw_compute.Prelude.{
  String, Bool, ◌≡◌, ◌⊎◌, inl, inr, true, Option, none, some, [], ◌∷◌, ◌++◌, arith, All,
  if◌then◌else◌, includes, Option-cases,
}
use claw_compute.ApiTypes.{RoleResponse}
use claw_compute.Exec.{redirected}
use claw_compute.Api.{build, interpret}
use claw_compute.Platform.{Request, Content, response, Platform, Env, State, HasCookies}
use claw_compute.Session.{truthy, read_token, bypass_token, clear_token, cookie_name}
use claw_compute.Html.{Html, links}
use claw_compute.Auth.{expired, logout}
use claw_compute.Dashboard.Sidebar.{sidebar}
use claw_compute.Dashboard.Home.{home_view, dashboard_layout}

module _ (P : Platform) (env : Env) where
  -- Without a session token the layout redirects to the login, and no request is sent.
  pub layout_guest :
      (first : Bool) (children : Html) (s : State P)
      → truthy (read_token P env s.jar) ≡ none
      → dashboard_layout P env first children s ≡ (redirected "/auth/login", s)
  unfolding dashboard_layout
  layout_guest first children s h = ground arith

  cleared :
      (H : HasCookies P) (s : State P)
      → bypass_token env ≡ none
      → truthy (read_token P env (clear_token P env s).1.jar) ≡ none
  unfolding clear_token read_token
  cleared H s off = ground (arith, H.get-delete (cookie_name env) s.jar)

  -- With the development bypass off, the dashboard after a sign-out or a dead session redirects to the
  -- login, whatever the cookie held before, and sends no request.
  pub layout-expired :
      (H : HasCookies P) (first : Bool) (children : Html) (s : State P)
      → bypass_token env ≡ none
      → (dashboard_layout P env first children (expired P env s).1
          ≡ (redirected "/auth/login", (expired P env s).1))
        × (dashboard_layout P env first children (logout P env s).1
            ≡ (redirected "/auth/login", (logout P env s).1))
  unfolding expired logout
  layout-expired H first children s off = (
    layout_guest first children _ (cleared H s off),
    layout_guest first children _ (cleared H s off),
  )

  -- The layout redirects to two places only: to the login without a session token, and with one to
  -- the handler that clears it.
  layout_redirects :
      (first : Bool) (children : Html) (s : State P) (path : String)
      → (dashboard_layout P env first children s).0 ≡ redirected path
      → ((path ≡ "/auth/login") × (truthy (read_token P env s.jar) ≡ none))
        ⊎ ((path ≡ "/auth/expired")
            × (token : String) × (truthy (read_token P env s.jar) ≡ some token))
  unfolding dashboard_layout
  layout_redirects first children s path h = elim (Option-cases (truthy (read_token P env s.jar))) [
    | inl e ↦ inl (ground arith, e)
    | inr (token, e) ↦ inr (ground arith, token, e)
  ]

  -- While the API answers every request with 401, a session token leads from the dashboard to the
  -- handler that clears it, whichever of the two requests goes first.
  layout_dead_session :
      (dead : (r : Request) (w : P.World)
        → (t : String) × (c : Content P.Json) × ((P.fetch r w).0 ≡ response 401 t c))
      (first : Bool) (children : Html) (s : State P) (token : String)
      → truthy (read_token P env s.jar) ≡ some token
      → (dashboard_layout P env first children s).0 ≡ redirected "/auth/expired"
  unfolding dashboard_layout interpret
  layout_dead_session dead first children s token e =
      let role = build env "GET" "/v1/me/role" none true (read_token P env s.jar) in
      let me = build env "GET" "/v1/me" none true (read_token P env s.jar) in
      let (t1, c1, e1) = dead role s.world in
      let (t2, c2, e2) = dead me s.world in
      let (t3, c3, e3) = dead me (P.fetch role s.world).1 in
      let (t4, c4, e4) = dead role (P.fetch me s.world).1 in ground arith

-- The console's navigation by role: bookings for a consumer, the supplier's pages for a supplier and the
-- way to become one for anybody else.
links-sidebar :
    (role : RoleResponse) (email : Option String)
    → links (sidebar role email)
      ≡ "/"
          ∷ "/dashboard"
          ∷ "/dashboard/wallet"
          ∷ (if role.is_consumer then "/dashboard/bookings" ∷ [] else [])
        ++ (if role.is_supplier
            then "/dashboard/suppliers" ∷ "/dashboard/suppliers/workers"
              ∷ "/dashboard/suppliers/offerings" ∷ []
            else "/dashboard/become-supplier" ∷ [])
unfolding sidebar
links-sidebar role email = ground arith

-- What the dashboard's first page links to is the catalogue or in the navigation of the same role.
home_view_reachable :
    (role : RoleResponse) (email : Option String)
    → All
        (λ href. includes href ("/browse" ∷ links (sidebar role email)) ≡ true)
        (links (home_view role))
unfolding home_view sidebar
home_view_reachable role email = ground arith
