-- ===== src/Worker/Events.antt =====
-- worker/src/api/ws.rs: the events of the marketplace and the envelopes that they are sealed in. The
-- encoding of texts and bytes and the NaCl boxes are packages; their documented behaviour is named.
use claw_compute.Prelude.{
  ℕ, ◌≡◌, refl, Option, none, some, chars, String, eqb, if◌then◌else◌, arith, not, Bool, true,
  false,
}

pub record SealedEnvelope : Type 0 where
  pub inner_type : String
  pub nonce : String
  pub ephemeral_pubkey : String
  pub ciphertext : String

-- `agent_config` is JSON, as a text.
pub data WorkerEvent : Type 0 where
  ping : WorkerEvent
  booking_activated : (booking_id offering_id agent_config : String) → WorkerEvent
  booking_cancelled : (booking_id : String) → WorkerEvent
  message_user : (booking_id content : String) → WorkerEvent
  sealed : SealedEnvelope → WorkerEvent

-- A byte is a character below 256.
abbrev pub Bytes : Type 0
Bytes = String

-- `b64decode` is Python's, which skips what is not of the alphabet, and `strict_decode` the worker's.
pub record Codec : Type 0 where
  pub b64encode : Bytes → String
  pub b64decode : String → Option Bytes
  pub strict_decode : String → Option Bytes
  pub dumps : WorkerEvent → Bytes
  pub from_slice : Bytes → Option WorkerEvent
  pub decode-encode : (bytes : Bytes) → b64decode (b64encode bytes) ≡ some bytes
  pub strict_decode-encode : (bytes : Bytes) → strict_decode (b64encode bytes) ≡ some bytes
  pub from-dumps : (e : WorkerEvent) → from_slice (dumps e) ≡ some e

-- X25519 keys and NaCl boxes between two of them.
pub record Boxes : Type 0 where
  pub public_key : (secret : Bytes) → Bytes
  pub encrypt : (their_public my_secret nonce plain : Bytes) → Bytes
  pub decrypt : (their_public my_secret nonce cipher : Bytes) → Option Bytes
  pub chars-public_key : (secret : Bytes) → chars (public_key secret) ≡ 32
  pub decrypt-encrypt :
      (mine theirs nonce plain : Bytes)
      → decrypt (public_key mine) theirs nonce (encrypt (public_key theirs) mine nonce plain)
        ≡ some plain

abbrev pub is_sealed : WorkerEvent → Bool
is_sealed (sealed env) = true
is_sealed ping = false
is_sealed (booking_activated id offering config) = false
is_sealed (booking_cancelled id) = false
is_sealed (message_user id content) = false

infixl 5 ◌>>=◌
abbrev ◌>>=◌ : {A B : Type 0} → Option A → (A → Option B) → Option B
none >>= f = none
some a >>= f = f a

abbrev of_length : ℕ → Bytes → Option Bytes
of_length n bytes = if not (eqb (chars bytes) n) then none else some bytes

-- A sealed event in an envelope is refused.
abbrev unnested : WorkerEvent → Option WorkerEvent
unnested (sealed env) = none
unnested ping = some ping
unnested (booking_activated id offering config) = some (booking_activated id offering config)
unnested (booking_cancelled id) = some (booking_cancelled id)
unnested (message_user id content) = some (message_user id content)

module _ (codec : Codec) (boxes : Boxes) where
  -- `secret` is the worker's identity; `none` stands for each of the errors.
  unfoldable pub open_sealed : (env : SealedEnvelope) (secret : Bytes) → Option WorkerEvent
  open_sealed env secret = do
    nonce_bytes ← codec.strict_decode env.nonce
    nonce ← of_length 24 nonce_bytes
    eph_bytes ← codec.strict_decode env.ephemeral_pubkey
    sender ← of_length 32 eph_bytes
    ct ← codec.strict_decode env.ciphertext
    pt ← boxes.decrypt sender secret nonce ct
    ev ← codec.from_slice pt
    unnested ev

  -- What reaches the handler of a frame's event.
  unfoldable pub event_of : Bytes → WorkerEvent → Option WorkerEvent
  unfolding open_sealed
  event_of secret ping = none
  event_of secret (sealed env) = open_sealed env secret
  event_of secret (booking_activated id offering config) =
      some (booking_activated id offering config)
  event_of secret (booking_cancelled id) = some (booking_cancelled id)
  event_of secret (message_user id content) = some (message_user id content)

  pub unnested-eq : (e : WorkerEvent) → is_sealed e ≡ false → unnested e ≡ some e
  unnested-eq ping h = refl
  unnested-eq (booking_activated id offering config) h = refl
  unnested-eq (booking_cancelled id) h = refl
  unnested-eq (message_user id content) h = refl
  unnested-eq (sealed env) h = absurd (ground arith)
