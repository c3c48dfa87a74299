-- ===== src/Dashboard/Home.antt =====
-- web/src/app/dashboard/layout.tsx and page.tsx: what stands around every page of the dashboard, and
-- its first page.
use claw_compute.Prelude.{String, Bool, none, some, [], ◌∷◌, ◌==◌, eqb, if◌then◌else◌, inl, inr}
use claw_compute.Exec.{
  Exec, Exception, api_error, error, thrown_value, ◌>>=◌, pure, raise, redirect, attempt, both,
}
use claw_compute.ApiTypes.{RoleResponse, UserOut}
use claw_compute.Platform.{Platform, Env, State}
use claw_compute.Session.{get_token, truthy}
use claw_compute.Api.{unset, get, request, defined}
use claw_compute.Html.{Html, el, leaf, say, when, ◌<+>◌}
use claw_compute.Dashboard.Sidebar.{sidebar}

unfoldable pub frame : RoleResponse → UserOut → Html → Html
unfolding sidebar
frame role me children = el "div" [] (sidebar role (some me.email) <+> el "div" [] (children))

unfoldable pub action_card : String → String → String → String → String → Html
action_card href icon title body variant =
    el "Link"
      (("href", href)
        ∷ (
          "className",
          if variant == "highlight"
              then "border-foreground/30 bg-gradient-to-br from-card to-muted/30"
              else "border-border/60 bg-card hover:border-foreground/20",
        )
        ∷ [])
      (el "div" [] (leaf icon [] <+> leaf "ArrowRight" [])
        <+> el "h3" [] (say title)
        <+> el "p" [] (say body))

unfoldable pub home_view : RoleResponse → Html
unfolding action_card
home_view role = el "div" [] (
    el "header" [] (el "p" [] (say "Dashboard") <+> el "h1" [] (say "Welcome back"))
    <+> el "div" [] (
        action_card "/browse" "Box" "Browse offerings"
          "Find an idle Mac, hire it by the hour, get a sandboxed agent." "default"
        <+> when (role.is_consumer) (
            action_card "/dashboard/bookings" "Calendar" "My bookings"
              "See active and past sessions, jump into chat with the agent." "default")
        <+> (if role.is_supplier
            then action_card "/dashboard/suppliers/workers" "Cpu" "Manage workers"
                "Add new machines, copy install commands, monitor heartbeats." "default"
              <+> action_card "/dashboard/suppliers/offerings" "Server" "Manage offerings"
                  "Create offerings, set hourly rates, edit capability tags." "default"
            else action_card "/dashboard/become-supplier" "Server" "Become a supplier"
                "Got an idle Mac? Earn from compute that would sit unused." "highlight")))

module _ (P : Platform) (env : Env) where
  rejected : Exception → Exec (State P) Html
  rejected (api_error status message) =
      if eqb status 401 then redirect "/auth/expired" else raise (api_error status message)
  rejected (error message) = raise (error message)
  rejected thrown_value = raise thrown_value

  -- The schedule says which of the two requests goes first.
  unfoldable pub dashboard_layout : Bool → Html → Exec (State P) Html
  unfolding get request get_token rejected frame
  dashboard_layout role_first children = do
    token ← get_token P env
    elim (truthy token) [
      | none ↦ redirect "/auth/login"
      | some t ↦ do
        loaded ← attempt (
            both role_first (get P env P.as_role "/v1/me/role" unset)
              (get P env P.as_user "/v1/me" unset))
        elim loaded [
          | inl e ↦ rejected e
          | inr (role, me) ↦ do r ← defined P role; u ← defined P me; pure (frame r u children)
        ]
    ]

  unfoldable pub dashboard_home : Exec (State P) Html
  unfolding get request home_view
  dashboard_home = do
    answer ← get P env P.as_role "/v1/me/role" unset
    role ← defined P answer
    pure (home_view role)
