-- ===== src/Supplier/Untouched.antt =====
-- What the form of an offering (web/src/app/dashboard/suppliers/offerings/new/OfferingForm.tsx) holds
-- as it is rendered, as the actions beside it (actions.ts) read it.
use claw_compute.Prelude.{String, Bool, Option, none, some, [], ◌∷◌}
use claw_compute.ApiTypes.{OfferingOut}
use claw_compute.Forms.{FormData, FormState, from_entries}
use claw_compute.Html.{Html, attr, opening, text, closing}
use claw_compute.Supplier.Form.{offering_form}

abbrev entered : Option String → Option String → FormData → FormData
entered none value rest = rest
entered (some name) none rest = (name, "") ∷ rest
entered (some name) (some value) rest = (name, value) ∷ rest

-- The named controls of a page in order, each with the value that it is rendered with.
abbrev controls : Html → FormData
controls [] = []
controls (opening tag attrs ∷ more) =
    entered (attr "name" attrs) (attr "defaultValue" attrs) (controls more)
controls (text s ∷ more) = controls more
controls (closing tag ∷ more) = controls more

-- The form of an offering that is edited.
module _ (action label : String) (o : OfferingOut) (state : Option FormState) (pending : Bool) where
  abbrev pub untouched : String → Option String
  untouched = from_entries (controls (offering_form action (some o) label state pending))
