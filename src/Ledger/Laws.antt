-- ===== src/Ledger/Laws.antt =====
-- What the public ledger shows (web/src/components/ledger).
use claw_compute.Prelude.{
  not, ◌&&◌, refl, String, Bool, ◌≡◌, ◌⊎◌, inl, inr, true, false, Option, none, some, List, [], ◌∷◌,
  ◌++◌, arith, filter, ap, ◌∙◌, if◌then◌else◌,
}
use mathlib.Core.List.{append-nil}
use claw_compute.ApiTypes.{
  LedgerEntry, LedgerOut, ChainInfo, opening, failed, SettlementKind, SettlementStatus,
}
use claw_compute.Session.{truthy}
use claw_compute.Html.{
  el, say, leaf, ◌<+>◌, or_else, for_some, Html, links, flat, each, values-append,
}
use claw_compute.Usdc.{format_duration, short_hash, tx_url}
use claw_compute.Locale.{Locale, price}
use claw_compute.Ledger.Chip.{kind_chip}
use claw_compute.Ledger.Table.{
  is_failed, is_opening, split_bar, split_parts, error_of, row, ledger_table,
}
use claw_compute.Ledger.Tape.{tape, on_tape, settlement_tape}

-- The page of an entry's transaction, if it has one.
abbrev pub tx_link : String → LedgerEntry → List String
tx_link explorer e = elim (truthy e.tx_hash) [ none ↦ [] | some hash ↦ tx_url explorer hash ∷ [] ]

links-kind_chip : (k : SettlementKind) (s : SettlementStatus) → links (kind_chip k s) ≡ []
unfolding kind_chip
links-kind_chip k s = ground arith

links-for_some :
    {A : Type 0} (o : Option A) (view : A → Html)
    → ((a : A) → links (view a) ≡ [])
    → links (for_some o view) ≡ []
links-for_some none view h = refl
links-for_some (some a) view h = h a

links-if : (b : Bool) (h k : Html) → links h ≡ [] → links k ≡ [] → links (if b then h else k) ≡ []
links-if true h k e f = e
links-if false h k e f = f

links-split_bar : (L : Locale) (e : LedgerEntry) → links (split_bar L e) ≡ []
unfolding split_bar split_parts
links-split_bar L e = ground arith

links-tx :
    (o : Option String) (explorer : String)
    → links (
        or_else o
          (λ hash.
            el "a"
              (("href", tx_url explorer hash)
                ∷ ("target", "_blank")
                ∷ ("rel", "noopener noreferrer")
                ∷ [])
              (say (short_hash (some hash) 6) <+> leaf "ArrowUpRight" []))
          (el "span" [] (say "—")))
      ≡ elim o [ none ↦ [] | some hash ↦ tx_url explorer hash ∷ [] ]
links-tx none explorer = refl
links-tx (some hash) explorer = refl

links-row :
    (L : Locale) (e : LedgerEntry) (explorer : String)
    → links (row L e explorer) ≡ tx_link explorer e
unfolding row
links-row L e explorer = simp (
  values-append,
  links-kind_chip,
  links-for_some (error_of e) (λ message. el "p" (("title", message) ∷ []) (say message))
      (λ _. refl),
  links-split_bar,
  links-tx (truthy e.tx_hash) explorer,
  links-for_some e.rate_per_hour_cents
      (λ rate. el "span" [] (say " · $" <+> say (price rate) <+> say "/hr")) (λ _. refl),
  links-if (is_opening e.kind) (say "—") (say (format_duration e.usage_seconds)) refl refl,
  links-if (is_opening e.kind && not (is_failed e.status)) (el "div" [] (say "locked")) [] refl
      refl,
  append-nil,
)

links-rows :
    (L : Locale) (explorer : String) (entries : List LedgerEntry)
    → links (each (λ e. row L e explorer) entries) ≡ flat (tx_link explorer) entries
links-rows L explorer [] = refl
links-rows L explorer (e ∷ entries) =
    values-append "href" (row L e explorer) (each (λ e. row L e explorer) entries)
    ∙ ap (λ l. l ++ links (each (λ e. row L e explorer) entries)) (links-row L e explorer)
    ∙ ap (λ l. tx_link explorer e ++ l) (links-rows L explorer entries)

-- The table links every transaction of its entries on the chain's explorer, in order, and nothing else.
links-ledger_table :
    (L : Locale) (entries : List LedgerEntry) (chain : ChainInfo)
    → links (ledger_table L entries chain) ≡ flat (tx_link chain.explorer_url) entries
unfolding ledger_table
links-ledger_table L entries chain =
    simp (values-append, links-rows L chain.explorer_url entries, append-nil)

filter-hidden :
    {A : Type 0} (p : A → Bool) (before after : List A) (x : A)
    → p x ≡ false
    → filter p (before ++ (x ∷ after)) ≡ filter p (before ++ after)
filter-hidden p [] after x h = rw (h) refl
filter-hidden p (y ∷ before) after x h = ground (arith, filter-hidden p before after x h)

abbrev pub IsHidden : LedgerEntry → Type 0
IsHidden e =
    (e.kind ≡ opening) ⊎ ((e.status ≡ failed) ⊎ ((e.amount_usdc ≡ none) ⊎ (e.amount_usdc ≡ some 0)))

hidden_lem : (e : LedgerEntry) → IsHidden e → on_tape e ≡ false
unfolding on_tape
hidden_lem e (inl k) = ground arith
hidden_lem e (inr (inl k)) = ground arith
hidden_lem e (inr (inr (inl k))) = ground arith
hidden_lem e (inr (inr (inr k))) = ground arith

-- An escrow lock, a failed settlement and one with no amount leave the strip as it is, wherever they
-- stand in the ledger.
settlement_tape_hidden :
    (ledger : LedgerOut) (before after : List LedgerEntry) (e : LedgerEntry)
    → IsHidden e
    → settlement_tape (record ledger { items = before ++ (e ∷ after) })
      ≡ settlement_tape (record ledger { items = before ++ after })
unfolding settlement_tape
settlement_tape_hidden ledger before after e hidden =
    ap tape (filter-hidden on_tape before after e (hidden_lem e hidden))
