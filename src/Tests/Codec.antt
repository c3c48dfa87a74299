-- ===== src/Tests/Codec.antt =====
-- Tokens, hashes and boxes that are as the backend and the worker need them, in the simplest way.
use Prim.Native.Char.{code}
use Prim.Native.String.{[], ◌∷◌}
use claw_compute.Prelude.{
  ℕ, zero, suc, ◌*◌, ◌≤◌, ◌<◌, ◌≡◌, refl, ap, ◌∙◌, ◌&&◌, Option, none, some, String, ◌==◌, ltb, leb,
  eqb, if◌then◌else◌, arith, sym, lt→ltb, le→leb, eq_refl,
}
use claw_compute.Worker.Events.{
  WorkerEvent, ping, booking_activated, booking_cancelled, message_user, sealed, Codec, Boxes,
}
use claw_compute.Backend.Tokens.{Claims, Jwt, Hashing}

-- A text, each character after an x, and its end.
unfoldable pub write_text : String → String → String
write_text [] rest = "-" ∷ rest
write_text (c ∷ s) rest = "x" ∷ c ∷ write_text s rest

unfoldable pub read_text : String → String × String
read_text [] = ([], [])
read_text (f ∷ []) = ([], [])
read_text (f ∷ c ∷ s) =
    let (t, rest) = read_text s in if eqb (code f) 120 then (c ∷ t, rest) else ([], c ∷ s)

read-write_text : (s rest : String) → read_text (write_text s rest) ≡ (s, rest)
unfolding write_text read_text
read-write_text [] [] = refl
read-write_text [] (c ∷ rest) = refl
read-write_text (c ∷ s) rest = ap (λ (p : String × String). (c ∷ p.0, p.1)) (read-write_text s rest)

unfoldable pub write_count : ℕ → String → String
write_count zero rest = "-" ∷ rest
write_count (suc n) rest = "1" ∷ write_count n rest

unfoldable pub read_count : String → ℕ × String
read_count [] = (0, [])
read_count (c ∷ s) =
    let (n, rest) = read_count s in if eqb (code c) 49 then (suc n, rest) else (0, s)

read-write_count : (n : ℕ) (rest : String) → read_count (write_count n rest) ≡ (n, rest)
unfolding write_count read_count
read-write_count zero rest = refl
read-write_count (suc n) rest = ap (λ (p : ℕ × String). (suc p.0, p.1)) (read-write_count n rest)

unfoldable pub write_claims : Claims → String
write_claims c = write_text c.sub (write_text c.kind (write_count c.iat (write_count c.exp [])))

-- The parts of the claims, one after the other.
unfoldable pub third : ℕ × String → String → String → Claims
third (iat, rest) sub kind = record { sub = sub; kind = kind; iat = iat; exp = (read_count rest).0 }

unfoldable pub second : String × String → String → Claims
second (kind, rest) sub = third (read_count rest) sub kind

unfoldable pub first : String × String → Claims
first (sub, rest) = second (read_text rest) sub

unfoldable pub read_claims : String → Claims
read_claims s = first (read_text s)

read-write_claims : (c : Claims) → read_claims (write_claims c) ≡ c
unfolding read_claims write_claims first second third
read-write_claims c =
    rw
      (
        read-write_text c.sub (write_text c.kind (write_count c.iat (write_count c.exp []))),
        read-write_text c.kind (write_count c.iat (write_count c.exp [])),
        read-write_count c.iat (write_count c.exp []),
        read-write_count c.exp [],
      )
      refl

unfoldable pub in_time : ℕ → Claims → Option Claims
in_time now c = if leb (c.iat * 1000000) now && ltb now (c.exp * 1000000) then some c else none

unfoldable pub decode : String → String → ℕ → String → Option Claims
decode secret algorithm now token = in_time now (read_claims token)

unfoldable pub encode : String → String → Claims → String
encode secret algorithm c = write_claims c

pub decode-encode :
    (secret algorithm : String) (now : ℕ) (c : Claims)
    → c.iat * 1000000 ≤ now
    → now < c.exp * 1000000
    → decode secret algorithm now (encode secret algorithm c) ≡ some c
unfolding decode encode in_time
decode-encode secret algorithm now c past unexpired =
    ap (in_time now) (read-write_claims c)
    ∙ rw (le→leb (c.iat * 1000000) now past, lt→ltb now (c.exp * 1000000) unexpired) refl

in_time-same : (now : ℕ) (c d : Claims) → in_time now c ≡ some d → d ≡ c
unfolding in_time
in_time-same now c d h = ground arith

pub decode_same :
    (secret algorithm : String) (now : ℕ) (c d : Claims)
    → decode secret algorithm now (encode secret algorithm c) ≡ some d
    → d ≡ c
unfolding decode encode
decode_same secret algorithm now c d h =
    in_time-same now c d (ap (in_time now) (sym (read-write_claims c)) ∙ h)

unfoldable pub plain_jwt : Jwt
plain_jwt = record {
  encode = encode;
  decode = decode;
  decode-encode = decode-encode;
  decode_same = decode_same;
}

-- A hash that hides nothing.
unfoldable pub plain_hashing : Hashing
plain_hashing = record {
  hash_token = λ salt plain. "#" ∷ plain;
  verify_token = λ plain hashed. ("#" ∷ plain) == hashed;
  hash_nonempty = λ salt plain. refl;
  verify-hash = λ salt plain. eq_refl ("#" ∷ plain);
}

unfoldable pub write_event : WorkerEvent → String
write_event ping = "p"
write_event (booking_activated id offering config) =
    "a" ∷ write_text id (write_text offering (write_text config []))
write_event (booking_cancelled id) = "c" ∷ write_text id []
write_event (message_user id content) = "m" ∷ write_text id (write_text content [])
write_event (sealed env) =
    "s"
    ∷ write_text env.inner_type
        (write_text env.nonce (write_text env.ephemeral_pubkey (write_text env.ciphertext [])))

unfoldable pub one_part : (String → WorkerEvent) → String × String → WorkerEvent
one_part f (a, rest) = f a

unfoldable pub two_parts : (String → String → WorkerEvent) → String × String → WorkerEvent
two_parts f (a, rest) = one_part (f a) (read_text rest)

unfoldable pub three_parts :
    (String → String → String → WorkerEvent) → String × String → WorkerEvent
three_parts f (a, rest) = two_parts (f a) (read_text rest)

unfoldable pub four_parts :
    (String → String → String → String → WorkerEvent) → String × String → WorkerEvent
four_parts f (a, rest) = three_parts (f a) (read_text rest)

unfoldable pub sealed_of : String → String → String → String → WorkerEvent
sealed_of inner_type nonce ephemeral_pubkey ciphertext = sealed (record {
  inner_type = inner_type;
  nonce = nonce;
  ephemeral_pubkey = ephemeral_pubkey;
  ciphertext = ciphertext;
})

unfoldable pub read_event : String → Option WorkerEvent
read_event [] = none
read_event (c ∷ s) =
    if eqb (code c) 112
    then some ping
    else if eqb (code c) 97
    then some (three_parts booking_activated (read_text s))
    else if eqb (code c) 99
    then some (one_part booking_cancelled (read_text s))
    else if eqb (code c) 109
    then some (two_parts message_user (read_text s))
    else some (four_parts sealed_of (read_text s))

pub read-write_event : (e : WorkerEvent) → read_event (write_event e) ≡ some e
unfolding read_event write_event one_part two_parts three_parts four_parts sealed_of
read-write_event ping = refl
read-write_event (booking_activated id offering config) =
    rw
      (
        read-write_text id (write_text offering (write_text config [])),
        read-write_text offering (write_text config []),
        read-write_text config [],
      )
      refl
read-write_event (booking_cancelled id) = rw (read-write_text id []) refl
read-write_event (message_user id content) =
    rw (read-write_text id (write_text content []), read-write_text content []) refl
read-write_event (sealed env) =
    rw
      (
        read-write_text env.inner_type
            (write_text env.nonce (write_text env.ephemeral_pubkey (write_text env.ciphertext []))),
        read-write_text env.nonce (write_text env.ephemeral_pubkey (write_text env.ciphertext [])),
        read-write_text env.ephemeral_pubkey (write_text env.ciphertext []),
        read-write_text env.ciphertext [],
      )
      refl

unfoldable pub plain_codec : Codec
plain_codec = record {
  b64encode = λ bytes. bytes;
  b64decode = λ text. some text;
  strict_decode = λ text. some text;
  dumps = write_event;
  from_slice = read_event;
  decode-encode = λ bytes. refl;
  strict_decode-encode = λ bytes. refl;
  from-dumps = read-write_event;
}

-- Boxes that hide nothing, of one key.
unfoldable pub plain_boxes : Boxes
plain_boxes = record {
  public_key = λ secret. "0123456789abcdef0123456789abcdef";
  encrypt = λ public secret nonce plain. plain;
  decrypt = λ public secret nonce cipher. some cipher;
  chars-public_key = λ secret. refl;
  decrypt-encrypt = λ mine theirs nonce plain. refl;
}
