-- ===== src/Fingerprint/Payload.antt =====
-- The fingerprint of a payload.
use infrgate.Prelude.{ℕ, ◌≡◌, ap, some, List, length, arith}
use infrgate.Prelude.Text.{Text}
use infrgate.Prelude.Error.{ok, ◌>>=◌}
use infrgate.Canonicalize.{Fields, object, canonicalize, or_empty}
use infrgate.Canonicalize.Reorder.{SameFields, same_object, order_independent}
use infrgate.Fingerprint.{
  SubtleCrypto, Platform, get_subtle_crypto, buffer_to_hex, encode, sha256, fingerprint,
}
use infrgate.Fingerprint.Hex.{from_hex, from_hex-buffer_to_hex}

-- Payloads that are equal up to the order of keys, at any depth, have one fingerprint, or the same
-- error.
pub fingerprint-SameFields :
    (p : Platform) {fs gs : Fields} → SameFields fs gs → fingerprint p fs ≡ fingerprint p gs
unfolding fingerprint
fingerprint-SameFields p h = ap (λ t. sha256 p (or_empty t)) (order_independent (same_object h))

-- Where the platform has the digest, a fingerprint is given: 64 hexadecimal digits, from which the
-- digest of the canonical text can be read back.
pub fingerprint_digest :
    (p : Platform) (subtle : SubtleCrypto) (fs : Fields)
    → get_subtle_crypto p ≡ ok subtle
    → (t : Text) × (fingerprint p fs ≡ ok t)
      × (length t ≡ 64)
      × (from_hex t ≡ some (subtle.digest (encode (or_empty (canonicalize (object fs))))))
unfolding fingerprint
fingerprint_digest p subtle fs e =
    let input = encode (or_empty (canonicalize (object fs))) in
    let hash : List ℕ = subtle.digest input in
    let (back, size) = from_hex-buffer_to_hex hash (subtle.digest_bytes input) in
    (buffer_to_hex hash, rw (e, ◌>>=◌), omega (arith, size, subtle.digest_size input), back)
