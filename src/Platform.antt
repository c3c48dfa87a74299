-- ===== src/Platform.antt =====
-- What the client runs on: the environment variables, `fetch`, and the cookies of next/headers. The
-- network with everything behind it is an unknown world that each request may change.
use claw_compute.Prelude.{ℕ, String, Bool, Option, none, some, List, ◌≡◌}
use claw_compute.ApiTypes.{
  UserOut, SupplierOut, OfferingOut, OfferingList, WorkerOut, ProvisioningTokenResponse, BookingOut,
  RoleResponse, MessageOut, LedgerOut,
}

-- A field of a request's JSON body.
pub data Field : Type 0 where
  str : String → Field
  num : ℕ → Field
  strs : List String → Field

abbrev pub Body : Type 0
Body = List (String × Field)

pub record Request : Type 0 where
  pub url : String
  pub method : String
  pub headers : List (String × String)
  pub body : Option Body

-- The options of `cookies().set` that the client gives.
pub record Cookie : Type 0 where
  pub name : String
  pub value : String
  pub http_only : Bool
  pub secure : Bool
  pub same_site : String
  pub path : String
  pub max_age : ℕ

pub record Env : Type 0 where
  pub next_public_api_url : Option String
  pub session_cookie_name : Option String
  pub claw_dev_bypass_auth : Option String
  pub claw_dev_jwt : Option String
  pub node_env : Option String

-- `res.json()` gives a value or rejects with a message.
pub data Content (J : Type 0) : Type 0 where
  json : J → Content J
  unreadable : String → Content J

-- `fetch` rejects with a message, or gives a response.
pub data Fetched (J : Type 0) : Type 0 where
  unreachable : String → Fetched J
  response : (status : ℕ) → (status_text : String) → Content J → Fetched J

-- The fields `as_…` read a JSON value as the type that the client casts it to, and
-- `undefined_as_message` is what its `undefined as T` is for a message.
pub record Platform : Type 1 where
  pub World : Type 0
  pub Json : Type 0
  pub fetch : Request → World → Fetched Json × World
  pub detail : Json → Option String
  pub Jar : Type 0
  pub get_cookie : String → Jar → Option String
  pub set_cookie : Cookie → Jar → Jar
  pub delete_cookie : String → Jar → Jar
  pub undefined_message : String
  pub undefined_as_message : MessageOut
  pub as_token : Json → String
  pub as_user : Json → UserOut
  pub as_supplier : Json → SupplierOut
  pub as_role : Json → RoleResponse
  pub as_offering : Json → OfferingOut
  pub as_offerings : Json → OfferingList
  pub as_workers : Json → List WorkerOut
  pub as_provisioning : Json → ProvisioningTokenResponse
  pub as_booking : Json → BookingOut
  pub as_bookings : Json → List BookingOut
  pub as_message : Json → MessageOut
  pub as_messages : Json → List MessageOut
  pub as_ledger : Json → LedgerOut

-- What the documentation of `cookies()` says of a value that is written or deleted in a response:
-- later reads see it. The client writes one name only.
pub record HasCookies (P : Platform) : Type 0 where
  pub get-set : (c : Cookie) (j : P.Jar) → P.get_cookie c.name (P.set_cookie c j) ≡ some c.value
  pub get-delete : (name : String) (j : P.Jar) → P.get_cookie name (P.delete_cookie name j) ≡ none

-- The state of a server call: the world, the cookies, and the paths given to `revalidatePath`.
pub record State (P : Platform) : Type 0 where
  pub world : P.World
  pub jar : P.Jar
  pub revalidated : List String
