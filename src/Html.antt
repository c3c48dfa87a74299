-- ===== src/Html.antt =====
-- What a component renders: the stream of its opening tags, texts and closing tags in document order.
-- A tag keeps the name that the source writes, an HTML element or a component of web/src/components/ui.
-- Attributes that only style are left out; a class that depends on data is kept.
use claw_compute.Prelude.{
  String, Bool, Option, none, some, List, [], ◌∷◌, ◌++◌, ◌==◌, if◌then◌else◌, ◌≡◌, refl, ap, ◌∙◌,
}

abbrev pub Attrs : Type 0
Attrs = List (String × String)

pub data Token : Type 0 where
  opening : String → Attrs → Token
  text : String → Token
  closing : String → Token

abbrev pub Html : Type 0
Html = List Token

abbrev pub el : String → Attrs → Html → Html
el tag attrs children = opening tag attrs ∷ children ++ (closing tag ∷ [])

-- An element with no children.
abbrev pub leaf : String → Attrs → Html
leaf tag attrs = opening tag attrs ∷ closing tag ∷ []

abbrev pub say : String → Html
say s = text s ∷ []

-- `{test && view}`
abbrev pub when : Bool → Html → Html
when b view = if b then view else []

-- `{value && view}` for a value that may be missing.
abbrev pub for_some {ℓ} : {A : Type ℓ} → Option A → (A → Html) → Html
for_some none view = []
for_some (some a) view = view a

-- `{items.map(view)}`
abbrev pub each {ℓ} : {A : Type ℓ} → (A → Html) → List A → Html
each view [] = []
each view (x ∷ xs) = view x ++ each view xs

-- `{value ? view : other}`
abbrev pub or_else {ℓ} : {A : Type ℓ} → Option A → (A → Html) → Html → Html
or_else none view other = other
or_else (some a) view other = view a

-- Siblings.
infixr 20 ◌<+>◌
abbrev pub ◌<+>◌ : Html → Html → Html
h <+> k = h ++ k

-- A boolean attribute.
abbrev pub flag : Bool → String
flag b = if b then "true" else "false"

abbrev pub attr : String → Attrs → Option String
attr name [] = none
attr name ((key, value) ∷ more) = if key == name then some value else attr name more

abbrev consed : Option String → List String → List String
consed none rest = rest
consed (some value) rest = value ∷ rest

-- The values of an attribute in a page, in order.
abbrev pub values : String → Html → List String
values name [] = []
values name (opening tag attrs ∷ more) = consed (attr name attrs) (values name more)
values name (text s ∷ more) = values name more
values name (closing tag ∷ more) = values name more

-- Where the links of a page lead.
abbrev pub links : Html → List String
links = values "href"

abbrev pub texts : Html → List String
texts [] = []
texts (opening tag attrs ∷ more) = texts more
texts (text s ∷ more) = s ∷ texts more
texts (closing tag ∷ more) = texts more

consed-append : (o : Option String) (xs ys : List String) → consed o (xs ++ ys) ≡ consed o xs ++ ys
consed-append none xs ys = refl
consed-append (some v) xs ys = refl

pub values-append :
    (name : String) (h k : Html) → values name (h ++ k) ≡ values name h ++ values name k
values-append name [] k = refl
values-append name (opening tag attrs ∷ h) k =
    ap (consed (attr name attrs)) (values-append name h k)
    ∙ consed-append (attr name attrs) (values name h) (values name k)
values-append name (text s ∷ h) k = values-append name h k
values-append name (closing tag ∷ h) k = values-append name h k

pub texts-append : (h k : Html) → texts (h ++ k) ≡ texts h ++ texts k
texts-append [] k = refl
texts-append (opening tag attrs ∷ h) k = texts-append h k
texts-append (text s ∷ h) k = ap (λ r. s ∷ r) (texts-append h k)
texts-append (closing tag ∷ h) k = texts-append h k

module _ {ℓ} {A : Type ℓ} where
  abbrev pub flat : (A → List String) → List A → List String
  flat f [] = []
  flat f (x ∷ xs) = f x ++ flat f xs

  pub values-each :
      (name : String) (view : A → Html) (xs : List A)
      → values name (each view xs) ≡ flat (λ x. values name (view x)) xs
  values-each name view [] = refl
  values-each name view (x ∷ xs) =
      values-append name (view x) (each view xs)
      ∙ ap (λ r. values name (view x) ++ r) (values-each name view xs)

  pub texts-each :
      (view : A → Html) (xs : List A) → texts (each view xs) ≡ flat (λ x. texts (view x)) xs
  texts-each view [] = refl
  texts-each view (x ∷ xs) =
      texts-append (view x) (each view xs) ∙ ap (λ r. texts (view x) ++ r) (texts-each view xs)
