-- ===== src/Tests/World.antt =====
-- A server as a function from requests to answers, a cookie jar, and a validator, all concrete.
use claw_compute.Prelude.{
  ℕ, String, true, false, Option, none, some, List, [], ◌∷◌, refl, ◌==◌, leb, chars, trim, includes,
  if◌then◌else◌, eq_refl, ◌+◌,
}
use claw_compute.Prelude.Digits.{digits_value}
use claw_compute.ApiTypes.{
  UserOut, SupplierOut, OfferingOut, active, WorkerOut, pending, BookingOut, BookingStatus,
  MessageOut, user,
}
use claw_compute.Usdc.{empty_ledger}
use claw_compute.Platform.{
  Platform, Env, State, HasCookies, Request, Fetched, response, json, Field, str, num, strs, Body,
}
use claw_compute.Forms.{
  Rule, min, max, email, trimmed, regex, Shape, string, string_or, coerced_int, transformed, one_of,
  optional, Parsed, valid, invalid, Schema, Zod, HasZod,
}
use claw_compute.Locale.{Locale}

abbrev pub a_user : UserOut
a_user = record { id = "u1"; email = "ada@example.org"; wallet_address = none }

abbrev a_supplier : SupplierOut
a_supplier = record {
  id = "s1";
  display_name = "Ada";
  payout_email = "ada@example.org";
  payout_wallet = none;
}

abbrev pub an_offering : OfferingOut
an_offering = record {
  id = "o1";
  supplier_id = "s1";
  title = "Mac mini";
  description = "";
  price_per_hour_cents = 50;
  capability_tags = "macos" ∷ [];
  status = active;
}

abbrev a_worker : WorkerOut
a_worker = record {
  id = "w1";
  name = "mini";
  status = pending;
  last_seen_at = none;
  machine_info = record { chip = none; total_ram_gb = none };
}

abbrev pub a_booking : BookingStatus → BookingOut
a_booking status = record {
  id = "b1";
  consumer_user_id = "u1";
  offering_id = "o1";
  worker_id = "w1";
  status = status;
  started_at = none;
  ended_at = none;
}

abbrev pub a_message : MessageOut
a_message = record { id = "m1"; role = user; content = "hello"; created_at = "now" }

-- A JSON value is the text that it carries.
abbrev pub platform : (Request → Fetched String) → Platform
platform answer = record {
  World = ℕ;
  Json = String;
  fetch = λ r w. (answer r, w + 1);
  detail = λ j. some j;
  Jar = String → Option String;
  get_cookie = λ name jar. jar name;
  set_cookie = λ c jar name. if name == c.name then some c.value else jar name;
  delete_cookie = λ name jar other. if other == name then none else jar other;
  undefined_message = "Cannot read properties of undefined";
  undefined_as_message = record { id = ""; role = user; content = ""; created_at = "" };
  as_token = λ j. j;
  as_user = λ j. a_user;
  as_supplier = λ j. a_supplier;
  as_role = λ j. record { is_supplier = false; is_consumer = true };
  as_offering = λ j. an_offering;
  as_offerings = λ j. record { items = an_offering ∷ []; total = 1 };
  as_workers = λ j. a_worker ∷ [];
  as_provisioning = λ j. record { provisioning_token = j; worker = a_worker };
  as_booking = λ j. a_booking active;
  as_bookings = λ j. a_booking active ∷ [];
  as_message = λ j. a_message;
  as_messages = λ j. a_message ∷ [];
  as_ledger = λ j. empty_ledger;
}

pub has_cookies : (answer : Request → Fetched String) → HasCookies (platform answer)
has_cookies answer = record {
  get-set = λ c j. rw (eq_refl c.name) refl;
  get-delete = λ name j. rw (eq_refl name) refl;
}

abbrev pub ok : String → Fetched String
ok j = response 200 "OK" (json j)

abbrev pub refusing : ℕ → Fetched String
refusing status = response status "refused" (json "no")

abbrev pub env : Env
env = record {
  next_public_api_url = some "https://api.example.org";
  session_cookie_name = none;
  claw_dev_bypass_auth = none;
  claw_dev_jwt = none;
  node_env = some "production";
}

abbrev pub jar_of : Option String → String → Option String
jar_of token name = if name == "claw_session" then token else none

abbrev pub guest : (answer : Request → Fetched String) → State (platform answer)
guest answer = record { world = 0; jar = jar_of none; revalidated = [] }

abbrev pub member : (answer : Request → Fetched String) → State (platform answer)
member answer = record { world = 0; jar = jar_of (some "old"); revalidated = [] }

abbrev check : List Rule → String → Parsed Field
check [] s = valid (str s)
check (min n ∷ rules) s = if leb n (chars s) then check rules s else invalid ("Too short" ∷ [])
check (max n ∷ rules) s = if leb (chars s) n then check rules s else invalid ("Too long" ∷ [])
check (email ∷ rules) s = check rules s
check (trimmed ∷ rules) s = check rules (trim s)
check (regex p m ∷ rules) s = if p s then check rules s else invalid (m ∷ [])

abbrev required : Parsed Field
required = invalid ("Required" ∷ [])

abbrev parse : Shape → Option String → Parsed Field
parse (string rules) none = required
parse (string rules) (some s) = check rules s
parse (string_or d) none = valid (str d)
parse (string_or d) (some s) = valid (str s)
parse (coerced_int least) none = required
parse (coerced_int least) (some s) =
    if leb least (digits_value s) then valid (num (digits_value s)) else invalid ("Too small" ∷ [])
parse (transformed f) none = required
parse (transformed f) (some s) = valid (strs (f s))
parse (one_of options) none = required
parse (one_of options) (some s) = if includes s options then valid (str s) else required
parse (optional shape) none = valid (str "")
parse (optional shape) (some s) = parse shape (some s)

abbrev joined : String → Parsed Field → Parsed Body → Parsed Body
joined name (valid f) (valid body) = valid ((name, f) ∷ body)
joined name (valid f) (invalid issues) = invalid issues
joined name (invalid issues) rest = invalid issues

abbrev object : Schema → (String → Option String) → Parsed Body
object [] input = valid []
object ((name, shape) ∷ schema) input = joined name (parse shape (input name)) (object schema input)

abbrev pub zod : Zod
zod = record { parse = parse; object = object }

pub has_zod : HasZod zod
has_zod = record { regex_lem = λ p m s. refl; absent = λ rules. ("Required", [], refl) }

abbrev pub locale : Locale
locale = record {
  date_time = λ t. t;
  short_date = λ t. t;
  to_fixed_one = λ n. "1.0";
  percent_width = λ part whole. "50%";
}
