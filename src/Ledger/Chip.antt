-- ===== src/Ledger/Chip.antt =====
-- web/src/components/ledger/KindChip.tsx: the chip that says what happened to the money.
use claw_compute.Prelude.{String, [], ◌∷◌}
use claw_compute.ApiTypes.{
  SettlementKind, opening, settle, cancel, SettlementStatus, confirmed, failed,
}
use claw_compute.Html.{Html, el, leaf, say, ◌<+>◌}

unfoldable pub kind_label : SettlementKind → String
kind_label opening = "escrow lock"
kind_label settle = "settled"
kind_label cancel = "cancelled"

unfoldable pub dot : String → Html
dot class_name = leaf "span" (("className", class_name) ∷ [])

unfoldable pub kind_chip : SettlementKind → SettlementStatus → Html
unfolding kind_label dot
kind_chip kind failed =
    el "span" [] (dot "bg-[rgb(var(--crimson))]" <+> say (kind_label kind) <+> say " failed")
kind_chip opening confirmed = el "span" [] (dot "bg-[rgb(var(--gold))]" <+> say "escrow lock")
kind_chip settle confirmed = el "span" [] (dot "bg-[rgb(var(--settle))]" <+> say "settled")
kind_chip cancel confirmed = el "span" [] (dot "bg-[rgb(var(--slate))]" <+> say "cancelled")
