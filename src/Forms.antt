-- ===== src/Forms.antt =====
-- Form data, and the validation library zod as a parameter: the schemas are data, as the source writes
-- them, and what zod makes of them is `Zod`, with what its documentation says in `HasZod`.
use claw_compute.Prelude.{
  ℕ, String, Bool, Option, none, some, List, [], ◌∷◌, ◌==◌, ◌≡◌, trim, if◌then◌else◌,
}
use claw_compute.Platform.{Field, str, Body}

abbrev pub FormData : Type 0
FormData = List (String × String)

-- `formData.get(name)`
abbrev pub entry : String → FormData → Option String
entry name [] = none
entry name ((key, value) ∷ more) = if key == name then some value else entry name more

abbrev pub later_or : Option String → Option String → Option String
later_or (some v) first = some v
later_or none first = first

-- `Object.fromEntries(formData)` at a name: the last entry wins.
abbrev pub from_entries : FormData → String → Option String
from_entries [] name = none
from_entries ((key, value) ∷ more) name =
    later_or (from_entries more name) (if key == name then some value else none)

-- A check of `z.string()`.
pub data Rule : Type 0 where
  min max : ℕ → Rule
  email trimmed : Rule
  regex : (String → Bool) → String → Rule

pub data Shape : Type 0 where
  string : List Rule → Shape
  string_or : String → Shape
  coerced_int : (least : ℕ) → Shape
  transformed : (String → List String) → Shape
  one_of : List String → Shape
  optional : Shape → Shape

-- `safeParse`: the parsed data, or the messages of the issues.
pub data Parsed (A : Type 0) : Type 0 where
  valid : A → Parsed A
  invalid : List String → Parsed A

abbrev pub Schema : Type 0
Schema = List (String × Shape)

pub record Zod : Type 0 where
  pub parse : Shape → Option String → Parsed Field
  pub object : Schema → (String → Option String) → Parsed Body

-- What the documentation of zod says of `z.string().trim().regex(p, m)` and of a missing string.
pub record HasZod (Z : Zod) : Type 0 where
  pub regex_lem :
      (p : String → Bool) (m s : String)
      → Z.parse (string (trimmed ∷ regex p m ∷ [])) (some s)
        ≡ (if p (trim s) then valid (str (trim s)) else invalid (m ∷ []))
  pub absent :
      (rules : List Rule)
      → (m : String) × (more : List String) × (Z.parse (string rules) none ≡ invalid (m ∷ more))

-- `issues[0]?.message ?? fallback`
abbrev pub first_issue : String → List String → String
first_issue fallback [] = fallback
first_issue fallback (m ∷ more) = m

-- What a form action returns: `{ error?, saved? }`.
pub record FormState : Type 0 where
  pub error : Option String
  pub saved : Bool
