-- ===== src/Fingerprint.antt =====
-- packages/sdk/src/utils/crypto.ts, and `fingerprint` of packages/sdk/src/idempotency.ts: the hash of a
-- payload. The digest itself is the platform's: a parameter, of which the code relies on the size of
-- its result. Promises are resolved at once.
pub mod Hex
pub mod Payload
pub mod Utf8
pub mod Encodable
pub mod Distinct
pub mod Tests
use infrgate.Prelude.{
  ℕ, ◌+◌, ◌-◌, ◌*◌, ◌/◌, ◌%◌, ◌≡◌, ◌<◌, Bool, ◌&&◌, Option, none, some, List, [], ◌∷◌, ◌++◌, length,
  All, ltb, leb, if◌then◌else◌,
}
use infrgate.Prelude.Text.{Text, codes}
use infrgate.Prelude.Error.{Error, Result, ok, throw, ◌>>=◌}
use infrgate.Canonicalize.{Value, Fields, object, canonicalize, or_empty}
use infrgate.Canonicalize.Quote.{hex_digit}

-- `crypto.subtle`, of which the code calls `digest('SHA-256', ·)`: 32 bytes.
pub record SubtleCrypto : Type 0 where
  pub digest : List ℕ → List ℕ
  pub digest_size : (bytes : List ℕ) → length (digest bytes) ≡ 32
  pub digest_bytes : (bytes : List ℕ) → All (λ b. b < 256) (digest bytes)

-- `globalThis.crypto?.subtle` and `global.crypto?.subtle`
pub record Platform : Type 0 where
  pub global_this : Option SubtleCrypto
  pub global : Option SubtleCrypto

abbrev pub crypto_unavailable_error : Error
crypto_unavailable_error = record {
  name = codes "CryptoUnavailableError";
  message =
      codes
        "Web Crypto API not available. Requires Node.js 16+ or modern browser (Chrome 90+, Firefox 88+, Safari 15+). For Node.js 15.x, import crypto.webcrypto explicitly.";
}

abbrev or_throw : Option SubtleCrypto → Result SubtleCrypto
or_throw none = throw crypto_unavailable_error
or_throw (some subtle) = ok subtle

unfoldable pub get_subtle_crypto : Platform → Result SubtleCrypto
get_subtle_crypto p = elim p.global_this [ some subtle ↦ ok subtle | none ↦ or_throw p.global ]

-- `byte.toString(16)`
abbrev to_string_16 : ℕ → Text
to_string_16 b = if ltb b 16 then hex_digit b ∷ [] else hex_digit (b / 16) ∷ hex_digit (b % 16) ∷ []

-- `padStart(2, '0')`
abbrev pad_start : Text → Text
pad_start [] = codes "00"
pad_start (c ∷ []) = b'0' ∷ c ∷ []
pad_start s = s

unfoldable pub buffer_to_hex : List ℕ → Text
buffer_to_hex [] = []
buffer_to_hex (b ∷ bytes) = pad_start (to_string_16 b) ++ buffer_to_hex bytes

-- TextEncoder: UTF-8, with U+FFFD for a surrogate that stands alone.
abbrev pub encode_unit : ℕ → List ℕ
encode_unit c =
    if ltb c 0x80
    then c ∷ []
    else if ltb c 0x800
    then (192 + c / 64) ∷ (128 + c % 64) ∷ []
    else if leb 0xd800 c && leb c 0xdfff
    then 239 ∷ 191 ∷ 189 ∷ []
    else (224 + c / 4096) ∷ (128 + c / 64 % 64) ∷ (128 + c % 64) ∷ []

abbrev pub encode_pair : ℕ → ℕ → List ℕ
encode_pair c d =
    let p = 65536 + (c - 0xd800) * 1024 + (d - 0xdc00) in
    (240 + p / 262144) ∷ (128 + p / 4096 % 64) ∷ (128 + p / 64 % 64) ∷ (128 + p % 64) ∷ []

unfoldable pub encode : Text → List ℕ
encode [] = []
encode (c ∷ []) = encode_unit c
encode (c ∷ d ∷ s) =
    let alone = encode_unit c ++ encode (d ∷ s) in
    let paired = encode_pair c d ++ encode s in
    if leb 0xd800 c && leb c 0xdbff && (leb 0xdc00 d && leb d 0xdfff) then paired else alone

unfoldable pub sha256 : Platform → Text → Result Text
unfolding get_subtle_crypto encode buffer_to_hex
sha256 p input = do subtle ← get_subtle_crypto p; ok (buffer_to_hex (subtle.digest (encode input)))

-- `fingerprint` takes an object, whose canonical text is never undefined.
unfoldable pub fingerprint : Platform → Fields → Result Text
unfolding sha256
fingerprint p payload = sha256 p (or_empty (canonicalize (object payload)))
