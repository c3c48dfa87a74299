-- ===== src/Supplier/Workers.antt =====
-- web/src/app/dashboard/suppliers/workers/page.tsx and components/dashboard/WorkerStatusBadge.tsx: the
-- table of a supplier's machines. The memory is taken as it is rounded.
use claw_compute.Prelude.{
  ℕ, String, Bool, true, false, not, ◌||◌, Option, none, some, List, [], ◌∷◌, ◌<>◌, eqb, length,
  show, if◌then◌else◌, inl, inr,
}
use claw_compute.Exec.{Exec, Exception, api_error, error, thrown_value, ◌>>=◌, pure, raise, attempt}
use claw_compute.ApiTypes.{WorkerOut, WorkerStatus, pending, active, offline, disabled}
use claw_compute.Platform.{Platform, Env, State}
use claw_compute.Session.{default_to}
use claw_compute.Api.{unset, get, request, defined}
use claw_compute.Locale.{Locale}
use claw_compute.Html.{Html, el, leaf, say, when, each, ◌<+>◌}
use claw_compute.Dashboard.Bookings.{date_or}

unfoldable pub worker_variant : WorkerStatus → String
worker_variant pending = "outline"
worker_variant active = "default"
worker_variant offline = "secondary"
worker_variant disabled = "destructive"

unfoldable pub worker_label : WorkerStatus → String
worker_label pending = "Pending"
worker_label active = "Active"
worker_label offline = "Offline"
worker_label disabled = "Disabled"

unfoldable pub dot_color : WorkerStatus → String
dot_color active = "bg-[rgb(var(--settle))] motion-safe:animate-pulse"
dot_color pending = "bg-[rgb(var(--gold))]"
dot_color offline = "bg-[rgb(var(--slate))]"
dot_color disabled = "bg-[rgb(var(--crimson))]"

unfoldable pub worker_status_badge : WorkerStatus → Html
unfolding worker_variant worker_label dot_color
worker_status_badge status =
    el "Badge" (("variant", worker_variant status) ∷ [])
      (leaf "span" (("className", dot_color status) ∷ []) <+> say (worker_label status))

unfoldable pub ram : Option ℕ → String
unfolding show
ram none = "—"
ram (some n) = if eqb n 0 then "—" else show n <> " GB"

unfoldable pub empty_state : Html
empty_state = el "div" [] (
    el "h2" [] (say "Become a supplier first")
    <+> el "p" [] (say "Set your display name and payout email, then add your first worker.")
    <+> el "Button" (("asChild", "true") ∷ [])
        (el "Link" (("href", "/dashboard/become-supplier") ∷ []) (say "Become a supplier")))

unfoldable pub empty_table : Html
empty_table = el "div" [] (
    el "h2" [] (say "No workers yet")
    <+> el "p" [] (say "Add a worker to get a one-time install command for your Mac.")
    <+> el "Button" (("asChild", "true") ∷ []) (
        el "Link" (("href", "/dashboard/suppliers/workers/new") ∷ [])
          (leaf "Plus" [] <+> say "Add your first worker")))

unfoldable pub workers_view : Locale → Bool → List WorkerOut → Html
unfolding empty_state empty_table worker_status_badge date_or ram
workers_view L supplied_yet items = el "div" [] (
    el "header" [] (
      el "div" [] (el "p" [] (say "Supplier") <+> el "h1" [] (say "Workers"))
      <+> when (supplied_yet) (
          el "Button" (("asChild", "true") ∷ []) (
            el "Link" (("href", "/dashboard/suppliers/workers/new") ∷ [])
              (leaf "Plus" [] <+> say "Add worker"))))
    <+> (if not supplied_yet
        then empty_state
        else (if eqb (length items) 0
            then empty_table
            else el "div" [] (
                el "Table" [] (
                  el "TableHeader" [] (
                    el "TableRow" [] (
                      el "TableHead" [] (say "Name")
                      <+> el "TableHead" [] (say "Status")
                      <+> el "TableHead" [] (say "Last seen")
                      <+> el "TableHead" [] (say "Chip")
                      <+> el "TableHead" [] (say "RAM")))
                  <+> el "TableBody" [] (
                      each
                        (λ w. el "TableRow" [] (
                          el "TableCell" [] (say w.name)
                          <+> el "TableCell" [] (worker_status_badge w.status)
                          <+> el "TableCell" [] (say (date_or L w.last_seen_at))
                          <+> el "TableCell" [] (say (default_to "—" w.machine_info.chip))
                          <+> el "TableCell" [] (say (ram w.machine_info.total_ram_gb))))
                        (items)))))))

module _ (P : Platform) (env : Env) (L : Locale) where
  -- 403 and 404 say that the user is no supplier yet.
  unsupplied : Exception → Exec (State P) (Bool × List WorkerOut)
  unsupplied (api_error status message) =
      if eqb status 403 || eqb status 404
      then pure (false, [])
      else raise (api_error status message)
  unsupplied (error message) = raise (error message)
  unsupplied thrown_value = raise thrown_value

  unfoldable pub workers_page : Exec (State P) Html
  unfolding get request unsupplied workers_view
  workers_page = do
    loaded ← attempt (get P env P.as_workers "/v1/suppliers/me/workers" unset >>= defined P)
    (supplied_yet, items) ← elim loaded [ inl e ↦ unsupplied e | inr found ↦ pure (true, found) ]
    pure (workers_view L supplied_yet items)
