-- ===== src/Ledger/Chain.antt =====
-- web/src/components/ledger/ChainCard.tsx: the contract's facts.
use claw_compute.Prelude.{String, some, [], ◌∷◌, show, if◌then◌else◌}
use claw_compute.ApiTypes.{ChainInfo}
use claw_compute.Html.{Html, el, leaf, say, or_else, ◌<+>◌}
use claw_compute.Session.{truthy}
use claw_compute.Usdc.{short_hash, address_url}
use claw_compute.Locale.{Locale}

unfoldable pub fact : String → Html → Html
fact label children = el "div" [] (el "dt" [] (say label) <+> el "dd" [] (children))

unfoldable pub explorer_link : String → String → Html
unfolding short_hash address_url
explorer_link explorer address =
    el "a"
      (("href", address_url explorer address)
        ∷ ("target", "_blank")
        ∷ ("rel", "noopener noreferrer")
        ∷ [])
      (say (short_hash (some address) 8) <+> leaf "ArrowUpRight" [])

unfoldable pub chain_card : Locale → ChainInfo → Html
unfolding fact explorer_link show
chain_card L chain = el "div" [] (
    el "div" [] (
      el "div" [] (say "Settlement rail")
      <+> (if chain.enabled
          then el "span" [] (leaf "span" [] <+> say "live · " <+> say chain.chain_name)
          else el "span" [] (leaf "span" [] <+> say "not configured")))
    <+> el "dl" [] (
        fact "escrow contract" (
          or_else (truthy (some chain.escrow_address))
            (λ escrow. explorer_link chain.explorer_url escrow)
            (el "span" [] (say "awaiting deployment")))
        <+> fact "usdc token" (explorer_link chain.explorer_url chain.usdc_address)
        <+> fact "chain id" (el "span" [] (say (show chain.chain_id)))
        <+> fact "commission" (
            el "span" [] (say (L.to_fixed_one chain.commission_bps) <+> say "%")
            <+> el "span" [] (say " · snapshotted per booking"))))
