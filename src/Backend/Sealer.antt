-- ===== src/Backend/Sealer.antt =====
-- backend/src/claw_api/crypto/sealer.py: an event is sealed to the key of a worker.
use claw_compute.Prelude.{
  ◌≡◌, refl, Option, none, some, chars, String, eqb, is_empty, if◌then◌else◌, not, false,
}
use claw_compute.Worker.Events.{
  SealedEnvelope, WorkerEvent, ping, booking_activated, booking_cancelled, message_user, sealed,
  Bytes, Codec, Boxes, is_sealed, open_sealed, unnested-eq,
}

-- An envelope, a `SealError`, or the exception of a text that is not base64.
pub data Sealing : Type 0 where
  envelope : SealedEnvelope → Sealing
  seal_error : Sealing
  binascii_error : Sealing

-- The `type` of an event.
abbrev pub type_of : WorkerEvent → String
type_of ping = "ping"
type_of (booking_activated id offering config) = "booking_activated"
type_of (booking_cancelled id) = "booking_cancelled"
type_of (message_user id content) = "message_user"
type_of (sealed env) = "sealed"

module _ (codec : Codec) (boxes : Boxes) where
  -- The envelope of an event for a key, made with a fresh key pair and nonce.
  abbrev pub envelope_for :
      (recipient : Bytes) → WorkerEvent → (ephemeral nonce : Bytes) → SealedEnvelope
  envelope_for recipient inner ephemeral nonce = record {
    inner_type = type_of inner;
    nonce = codec.b64encode nonce;
    ephemeral_pubkey = codec.b64encode (boxes.public_key ephemeral);
    ciphertext = codec.b64encode (boxes.encrypt recipient ephemeral nonce (codec.dumps inner));
  }

  abbrev sealed_to : Option Bytes → WorkerEvent → (ephemeral nonce : Bytes) → Sealing
  sealed_to none inner ephemeral nonce = binascii_error
  sealed_to (some raw) inner ephemeral nonce =
      if not (eqb (chars raw) 32)
      then seal_error
      else envelope (envelope_for raw inner ephemeral nonce)

  unfoldable pub seal_for_worker :
      (worker_pubkey_b64 : Option String) → WorkerEvent → (ephemeral nonce : Bytes) → Sealing
  seal_for_worker none inner ephemeral nonce = seal_error
  seal_for_worker (some key) inner ephemeral nonce =
      if is_empty key then seal_error else sealed_to (codec.b64decode key) inner ephemeral nonce

  open_sealed-envelope :
      (secret ephemeral nonce : Bytes) (inner : WorkerEvent)
      → chars nonce ≡ 24
      → is_sealed inner ≡ false
      → open_sealed codec boxes
          (envelope_for (boxes.public_key secret) inner ephemeral nonce)
          secret
        ≡ some inner
  unfolding open_sealed
  open_sealed-envelope secret ephemeral nonce inner h plain =
      rw
        (
          codec.strict_decode-encode nonce,
          h,
          codec.strict_decode-encode (boxes.public_key ephemeral),
          boxes.chars-public_key ephemeral,
          codec.strict_decode-encode
              (boxes.encrypt (boxes.public_key secret) ephemeral nonce (codec.dumps inner)),
          boxes.decrypt-encrypt ephemeral secret nonce (codec.dumps inner),
          codec.from-dumps inner,
        )
        (unnested-eq codec boxes inner plain)

  -- What is sealed to a worker's key is what the worker opens with its identity: for every event but an
  -- envelope, every fresh key pair and every nonce of 24 bytes.
  pub seal_for_worker-open_sealed :
      (key : String) (secret ephemeral nonce : Bytes) (inner : WorkerEvent)
      → is_empty key ≡ false
      → codec.b64decode key ≡ some (boxes.public_key secret)
      → chars nonce ≡ 24
      → is_sealed inner ≡ false
      → (env : SealedEnvelope) × (seal_for_worker (some key) inner ephemeral nonce ≡ envelope env)
        × (open_sealed codec boxes env secret ≡ some inner)
  unfolding seal_for_worker
  seal_for_worker-open_sealed key secret ephemeral nonce inner filled decoded h plain = (
    envelope_for (boxes.public_key secret) inner ephemeral nonce,
    rw (filled, decoded, boxes.chars-public_key secret) refl,
    open_sealed-envelope secret ephemeral nonce inner h plain,
  )
