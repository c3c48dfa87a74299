-- ===== src/Actions/Tags.antt =====
-- The tags of an offering, as its form shows them and reads them back
-- (web/src/app/dashboard/suppliers/offerings/actions.ts and new/OfferingForm.tsx).
use Prim.Native.Char.{Char, code}
use Prim.Native.String.{[], ◌∷◌}
use text.Mathlib.TextLemmas.{nil-append, cons-append}
use claw_compute.Prelude.{
  String, ◌≡◌, refl, List, [], ◌∷◌, Bool, true, false, not, map, filter, eqb, is_empty, trim,
  split_comma, join, All, sym, inl, inr, Bool-cases, push_char, space-append, trim-space, ap, ◌∙◌,
  ◌<>◌, arith, ◌&&◌,
}
use claw_compute.Actions.{tags}

abbrev no_comma : String → Bool
no_comma [] = true
no_comma (c ∷ s) = not (eqb (code c) b',') && no_comma s

-- A tag as the form reads one: not empty, without blanks around it and without a comma.
abbrev pub IsTag : String → Type 0
IsTag t = (is_empty t ≡ false) × (trim t ≡ t) × (no_comma t ≡ true)

abbrev glue : String → List String → List String
glue t [] = []
glue t (u ∷ us) = (t <> u) ∷ us

push_char-glue :
    (c : Char) (t : String) (us : List String) → push_char c (glue t us) ≡ glue (c ∷ t) us
push_char-glue c t [] = refl
push_char-glue c t (u ∷ us) = ap (λ r. r ∷ us) (sym (cons-append c t u))

glue_empty : (us : List String) → glue "" us ≡ us
glue_empty [] = refl
glue_empty (u ∷ us) = ap (λ r. r ∷ us) (nil-append u)

append-empty : (t : String) → t <> "" ≡ t
append-empty [] = nil-append ""
append-empty (c ∷ t) = cons-append c t "" ∙ ap (λ r. c ∷ r) (append-empty t)

split_comma-append :
    (t s : String) → no_comma t ≡ true → split_comma (t <> s) ≡ glue t (split_comma s)
unfolding split_comma
split_comma-append [] s h = ap split_comma (nil-append s) ∙ sym (glue_empty (split_comma s))
split_comma-append (c ∷ t) s h = elim (Bool-cases (eqb (code c) b',')) [
  | inl e ↦ absurd (ground arith)
  | inr e ↦
      ap split_comma (cons-append c t s)
      ∙ rw (e) (
          ap (push_char c) (split_comma-append t s (ground arith))
          ∙ push_char-glue c t (split_comma s))
]

split_comma_whole : (t : String) → no_comma t ≡ true → split_comma t ≡ t ∷ []
unfolding split_comma
split_comma_whole [] h = refl
split_comma_whole (c ∷ t) h = elim (Bool-cases (eqb (code c) b',')) [
  | inl e ↦ absurd (ground arith)
  | inr e ↦ rw (e) (ap (push_char c) (split_comma_whole t (ground arith)))
]

abbrev spaced : List String → List String
spaced [] = []
spaced (t ∷ ts) = (" " <> t) ∷ spaced ts

split_comma-separator : (s : String) → split_comma (", " <> s) ≡ "" ∷ push_char " " (split_comma s)
unfolding split_comma
split_comma-separator s =
    ap split_comma (cons-append "," " " s ∙ ap (λ r. "," ∷ r) (space-append s))

joined :
    (t u : String) (ts : List String)
    → glue t ("" ∷ push_char " " (u ∷ spaced ts)) ≡ t ∷ spaced (u ∷ ts)
joined t u ts =
    ap (λ r. r ∷ push_char " " (u ∷ spaced ts)) (append-empty t)
    ∙ ap (λ r. t ∷ r ∷ spaced ts) (sym (space-append u))

split_comma-join :
    (t : String) (ts : List String)
    → All IsTag (t ∷ ts)
    → split_comma (join ", " (t ∷ ts)) ≡ t ∷ spaced ts
unfolding split_comma join
split_comma-join t [] (p, h) = split_comma_whole t p.2
split_comma-join t (u ∷ ts) (p, h) =
    split_comma-append t (", " <> join ", " (u ∷ ts)) p.2
    ∙ ap (glue t) (
        split_comma-separator (join ", " (u ∷ ts))
        ∙ ap (λ r. "" ∷ push_char " " r) (split_comma-join u ts h))
    ∙ joined t u ts

kept :
    (ts : List String) → All IsTag ts → filter (λ t. not (is_empty t)) (map trim (spaced ts)) ≡ ts
kept [] h = refl
kept (t ∷ ts) (p, h) = rw (trim-space t, p.1, p.0) (ap (λ r. t ∷ r) (kept ts h))

-- The tags that the form shows, joined by commas, are read back as they were.
pub tags-join : (ts : List String) → All IsTag ts → tags (join ", " ts) ≡ ts
unfolding tags join trim split_comma
tags-join [] h = refl
tags-join (t ∷ ts) (p, h) =
    rw (split_comma-join t ts (p, h), p.1, p.0) (ap (λ r. t ∷ r) (kept ts h))
