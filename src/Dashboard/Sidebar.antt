-- ===== src/Dashboard/Sidebar.antt =====
-- web/src/components/dashboard/Sidebar.tsx: the navigation that a role gets. An icon is its name.
use claw_compute.Prelude.{String, Option, [], ◌∷◌, if◌then◌else◌}
use claw_compute.ApiTypes.{RoleResponse}
use claw_compute.Html.{Html, el, leaf, say, when, for_some, ◌<+>◌}
use claw_compute.Session.{truthy}

unfoldable pub section_label : Html → Html
section_label children = el "p" [] (children)

unfoldable pub item : String → String → String → Html
item href icon label = el "Link" (("href", href) ∷ []) (leaf icon [] <+> say label)

unfoldable pub sidebar : RoleResponse → Option String → Html
unfolding section_label item
sidebar role email = el "aside" [] (
    el "Link" (("href", "/") ∷ []) (leaf "Image" (("src", "/openclaw.svg") ∷ []) <+> say "Claw")
    <+> el "p" [] (say "· console")
    <+> el "nav" [] (
        item "/dashboard" "Home" "Home"
        <+> item "/dashboard/wallet" "Wallet" "Wallet"
        <+> when (role.is_consumer) (item "/dashboard/bookings" "Calendar" "My bookings")
        <+> (if role.is_supplier
            then section_label (say "Supplier")
              <+> item "/dashboard/suppliers" "Server" "Overview"
              <+> item "/dashboard/suppliers/workers" "Cpu" "Workers"
              <+> item "/dashboard/suppliers/offerings" "ShoppingBag" "Offerings"
            else section_label (say "Earn")
              <+> item "/dashboard/become-supplier" "Box" "Become a supplier"))
    <+> el "div" [] (
        el "div" [] (leaf "span" [] <+> say "status · online")
        <+> el "p" [] (say "The claw is on duty. Heartbeats green, queues warm."))
    <+> el "div" [] (
        for_some (truthy email)
          (λ address. el "p" (("title", address) ∷ []) (el "span" [] (say "@") <+> say address))
        <+> el "form" (("action", "/auth/logout") ∷ ("method", "post") ∷ [])
            (el "button" (("type", "submit") ∷ []) (leaf "LogOut" [] <+> say "Sign out"))))
