-- ===== src/Lib.antt =====
-- The marketplace for idle Macs: its web client (web/src), a Next.js application whose server code
-- talks to the marketplace API, keeps the session in a cookie and renders pages; the escrow
-- contract that holds the consumers' money (contracts/src/ClawEscrow.sol); the backend
-- (backend/src/claw_api), which signs users and workers in, moves bookings, settles them on the
-- contract and passes messages on; and the worker on a supplier's Mac (worker/src), which runs the
-- sandboxes of bookings. To the client, the API, the browser, next/headers, next/navigation and zod
-- are parameters; to the contract, the token and the roles and the pause switch that it inherits;
-- to the backend, the chain's node, the hashing of tokens (Argon2), their signing (PyJWT) and
-- NaCl's boxes; to the worker, its sandboxes and the disk.
--
-- How the parts interact. A page or a form action is server code (Exec): a function from a state to
-- an outcome (a value, a thrown exception, a redirect, the not-found page) and the state after it.
-- The state (Platform) holds the world behind the network, the cookies, and the paths given to
-- revalidatePath. Every call of the API goes through `request`, which reads the session; public reads
-- go through `safe_get`, which falls back to a seed value. Pages render a stream of tags and texts
-- (Html), of which the links, field names and texts can be read back.
--
-- The backend (Backend) answers a transition of a booking: it finds the rows, has the worst-case cost
-- locked on the contract before the booking is active, and has the usage settled when it is over. The
-- client of the chain sends one call and says what came of it (Fate: the node is not reached, a block
-- takes the transaction in, or its receipt does not come in time). The contract (Escrow) is a record
-- of its mappings, its ledger of tokens and its guards; a call is a function to a state or a revert.
--
-- A user signs in by a link and a machine by a provisioning token; either gets a signed token of its
-- own kind, by which the backend knows it. What the backend has for a worker (a booking that becomes
-- active or is cancelled, a message of the consumer) is sealed to the worker's key and put into the
-- queues of its connections; the worker opens it and starts a sandbox, stops it, or asks it and posts
-- the answer. What chance gives, the time, and how calls end are arguments of each request or event.
--
-- Files and the code they model:
--
--   Prelude, with Tests, Lists, Texts, Int, Digits: numbers, texts and lists as the client uses them.
--   Exec, Platform: outcomes, try/catch, Promise.all, and what the client runs on.
--   ApiTypes: web/src/lib/api-types.ts, the types of the answers.
--   Session: web/src/lib/session.ts (getToken, setToken, clearToken).
--   Api: web/src/lib/api.ts (request and its verbs). SafeApi: web/src/lib/safe-api.ts (safeGet).
--   Auth: web/src/app/auth (verify, expired, logout; Auth/Login is the sign-in form).
--   Forms, Wallet, Actions: the form actions (web/src/app/auth/actions.ts and the actions.ts files
--     under web/src/app/dashboard) and zod's schemas as data. Wallet/Page: the wallet page;
--     Actions/Tags: the tags that the offering form shows and reads.
--   Chat: web/src/components/dashboard/ChatThread.tsx. Chat is the state of the thread, Chat/Sends its
--     history, Chat/View what it shows; Chat/Updates, Chat/Distinct and Chat/Laws relate the first two.
--   Dashboard: web/src/app/dashboard (layout, first page, sidebar, bookings). Supplier: the pages of
--     a supplier (become-supplier, offerings, workers); Supplier/Untouched: the offering form as it is
--     rendered and as its action reads it.
--   Browse, Seed: web/src/app/browse, web/src/app/offerings, web/src/components/browse,
--     web/src/lib/seed.ts. Ledger: web/src/app/ledger, web/src/components/ledger.
--   Pricing: web/src/lib/pricing.ts and web/src/app/pricing. Marketing: web/src/app/page.tsx and
--     web/src/components/marketing. Download: web/src/app/download.
--   Usdc, Locale: web/src/lib/usdc.ts and the engine's number formats. Site: web/src/components/site,
--     web/src/app/error.tsx and web/src/app/not-found.tsx.
--   Meter: landing/assets/meter.js, the meter of the landing page; Meter/Laws: what it shows.
--   Html: rendered pages. Tests: the theorems at concrete servers, forms and data.
--
--   Escrow: contracts/src/ClawEscrow.sol. Escrow/Mapping, Escrow/Result: Solidity's mappings and
--     checked arithmetic. Escrow/Contract: the storage, the token and the guards. Escrow/Calls: the
--     functions. Escrow/Effect, Escrow/Price, Escrow/Sound, Escrow/Refines: an abstract machine, its
--     invariant, and the functions as its effects. Escrow/System: the contract among its callers.
--     Escrow/Settle, Escrow/Outcome, Escrow/Exit, Escrow/Lifecycle: settlements, the ways out, and
--     the life of a booking.
--   Backend/Models: backend/src/claw_api/models, the columns that a transition reads and writes.
--     Backend/Client: backend/src/claw_api/chain/escrow_client.py. Backend/Service:
--     backend/src/claw_api/chain/service.py. Backend/Router: backend/src/claw_api/api/v1/bookings.py.
--     Backend/Transitions, Backend/Locking, Backend/Closing, Backend/Overrun, Backend/Settled: the
--     rows, the activation and the end of a booking.
--   Backend/Tokens: backend/src/claw_api/auth/jwt.py and deps.py (current_user, current_worker).
--     Backend/Login: backend/src/claw_api/auth/magic_link.py and api/v1/auth.py; Login/Users,
--     Login/Laws and Login/Counting are on who is signed in and how often.
--     Backend/Workers: backend/src/claw_api/api/v1/workers.py; Workers/Sound, Workers/Barred,
--     Workers/Enrolment and Workers/Once are on its rows and its tokens.
--   Backend/Realtime: backend/src/claw_api/realtime.py. Backend/Sealer:
--     backend/src/claw_api/crypto/sealer.py. Backend/Messages: backend/src/claw_api/api/v1/messages.py;
--     Backend/Delivery and Backend/Conversation follow a message to the worker and its sandbox.
--     Backend/PublicLedger: the statistics of backend/src/claw_api/api/v1/ledger.py, with
--     Backend/LedgerLocked and Backend/LedgerSums on what they count.
--   Worker/Events, Worker/Loop: worker/src/api/ws.rs (open_sealed, run_ws). Worker/Booking:
--     worker/src/booking/mod.rs (dispatch) and worker/src/state.rs. Worker/Tracked, Worker/Cancel,
--     Worker/Safe: the ports, the end of a sandbox, and the process as a whole.
--
-- Conventions. `null` and `undefined` are `none`; a camelCase name of the source is snake_case here.
-- Two calls of Promise.all take a Boolean that says which goes first. An exception keeps what was
-- written before it. Amounts, rates and times are natural numbers without bound; the printing of a
-- number recurs on the number itself plus one as fuel, one unit for each digit (or group of three),
-- and a number has no more digits than that. Nothing else recurs but on lists. A `uint256` of the
-- contract is a natural number, and every sum, difference and product of the source is checked
-- against its range as the compiler does; addresses and keys of bookings are numbers, and the
-- narrower types of the arguments are not needed. A revert carries no state, since it undoes its call.
--
-- Not modelled: the UI primitives, console output,
-- effects in the browser (scrolling, clipboard, router.push), what the landing page's meter writes
-- into the page, and attributes that only style. Of the
-- backend, the routes of offerings and suppliers, the attestation of workers, the joined rows of the
-- ledger, the sealing of what a transition publishes and the texts of errors; that two requests run
-- at once, since each is taken as a whole; of the worker, what calls the operating system; and that
-- anyone but the contract's callers runs code during a call (the token calls nobody back).
mod Prelude
pub mod Exec
pub mod ApiTypes
pub mod Platform
pub mod Session
pub mod Api
pub mod SafeApi
pub mod Html
pub mod Usdc
pub mod Locale
pub mod Ledger
pub mod Auth
pub mod Forms
pub mod Wallet
pub mod Actions
pub mod Chat
pub mod Dashboard
pub mod Supplier
pub mod Site
pub mod Seed
pub mod Browse
pub mod Escrow
pub mod Worker
pub mod Backend
pub mod Pricing
pub mod Marketing
pub mod Download
pub mod Meter
mod Tests
