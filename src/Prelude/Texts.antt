-- ===== src/Prelude/Texts.antt =====
-- Texts: JavaScript's `slice`, `trim`, `split(",")` and `join(", ")`, and decimal numerals. A text is
-- a list of code points, so positions agree with JavaScript's below U+10000.
use Prim.Native.Nat.{ℕ, zero, suc, ◌-◌, ◌/◌, ◌%◌}
use Prim.Native.Char.{Char, code}
use Prim.Native.String
use Prim.Native.String.{String, [], ◌∷◌}
use mathlib.Core.Path.{◌≡◌, refl, ap, ◌∙◌}
use text.Mathlib.TextLemmas.{nil-append, cons-append}
use mathlib.Core.Bool.{Bool, true, false, ◌&&◌, ◌||◌}
use mathlib.Core.List.{List, [], ◌∷◌}
use text.Mathlib.Text.{◌==◌}
use claw_compute.Prelude.Tests.{ltb, leb, eqb, if◌then◌else◌}

infixr 65 ◌<>◌
abbrev pub ◌<>◌ : String → String → String
s <> t = String.◌++◌ s t

-- The empty text is JavaScript's only falsy one.
abbrev pub is_empty : String → Bool
is_empty [] = true
is_empty (c ∷ s) = false

abbrev pub chars : String → ℕ
chars [] = 0
chars (c ∷ s) = suc (chars s)

-- `s.slice(0, n)`
abbrev pub slice_to : ℕ → String → String
slice_to zero s = []
slice_to (suc n) [] = []
slice_to (suc n) (c ∷ s) = c ∷ slice_to n s

abbrev pub slice_from : ℕ → String → String
slice_from zero s = s
slice_from (suc n) [] = []
slice_from (suc n) (c ∷ s) = slice_from n s

-- `s.slice(-n)`, for a positive n
abbrev pub slice_last : ℕ → String → String
slice_last n s = slice_from (chars s - n) s

-- WhiteSpace and LineTerminator of ECMAScript.
abbrev pub is_space : ℕ → Bool
is_space c =
    leb 9 c && leb c 13
    || (eqb c 32
        || (eqb c 160
            || (eqb c 0x1680
                || (leb 0x2000 c && leb c 0x200a
                    || (eqb c 0x2028
                        || (eqb c 0x2029
                            || (eqb c 0x202f
                                || (eqb c 0x205f || (eqb c 0x3000 || eqb c 0xfeff)))))))))

trim_start : String → String
trim_start [] = []
trim_start (c ∷ s) = let rest = trim_start s in if is_space (code c) then rest else c ∷ s

trim_end_cons : Char → String → String
trim_end_cons c [] = if is_space (code c) then [] else c ∷ []
trim_end_cons c (d ∷ s) = c ∷ d ∷ s

trim_end : String → String
unfolding trim_end_cons
trim_end [] = []
trim_end (c ∷ s) = trim_end_cons c (trim_end s)

unfoldable pub trim : String → String
unfolding trim_start trim_end
trim s = trim_end (trim_start s)

pub space-append : (s : String) → " " <> s ≡ " " ∷ s
space-append s = cons-append " " [] s ∙ ap (λ r. " " ∷ r) (nil-append s)

pub trim-space : (s : String) → trim (" " <> s) ≡ trim s
unfolding trim trim_start
trim-space s = ap trim (space-append s)

-- A split text has a first part.
abbrev pub push_char : Char → List String → List String
push_char c [] = []
push_char c (t ∷ ts) = (c ∷ t) ∷ ts

unfoldable pub split_comma : String → List String
split_comma [] = [] ∷ []
split_comma (c ∷ s) =
    let rest = split_comma s in if eqb (code c) b',' then [] ∷ rest else push_char c rest

unfoldable pub join : String → List String → String
join sep [] = []
join sep (s ∷ []) = s
join sep (s ∷ t ∷ ts) = s <> sep <> join sep (t ∷ ts)

-- `Array.prototype.includes` on texts.
abbrev pub includes : String → List String → Bool
includes s [] = false
includes s (t ∷ ts) = t == s || includes s ts

unfoldable pub digit : ℕ → String
digit n =
    if eqb n 0
    then "0"
    else if eqb n 1
    then "1"
    else if eqb n 2
    then "2"
    else if eqb n 3
    then "3"
    else if eqb n 4
    then "4"
    else if eqb n 5
    then "5"
    else if eqb n 6
    then "6"
    else if eqb n 7
    then "7"
    else if eqb n 8
    then "8"
    else "9"

-- The fuel is one more than the number, which has fewer digits than that.
unfoldable pub show_fuel : ℕ → ℕ → String
show_fuel zero n = []
show_fuel (suc f) n =
    let front = show_fuel f (n / 10) in if ltb n 10 then digit n else front <> digit (n % 10)

-- A natural number in decimal, as in a template literal.
unfoldable pub show : ℕ → String
unfolding show_fuel digit
show n = show_fuel (suc n) n

-- Two digits.
unfoldable pub pad_two : ℕ → String
unfolding digit
pad_two n = digit (n / 10 % 10) <> digit (n % 10)

unfoldable pub group_fuel : ℕ → ℕ → String
group_fuel zero n = []
group_fuel (suc f) n =
    let front = group_fuel f (n / 1000) in
    if ltb n 1000 then show n else front <> "," <> digit (n / 100 % 10) <> pad_two (n % 100)

-- A natural number in decimal with a comma before each group of three digits.
unfoldable pub show_grouped : ℕ → String
unfolding group_fuel show pad_two
show_grouped n = group_fuel (suc n) n

show_tests :
    (show 1905 ≡ "1905")
    × (show 0 ≡ "0")
    × (show_grouped 1204005 ≡ "1,204,005")
    × (trim "  a b\n" ≡ "a b")
    × (split_comma "a,,b c" ≡ "a" ∷ "" ∷ "b c" ∷ [])
unfolding show show_grouped trim split_comma
show_tests = (refl, refl, refl, refl, refl)
