-- ===== src/Fingerprint/Tests.antt =====
-- The fingerprint at a concrete payload, over a stand-in for the platform's digest.
use infrgate.Prelude.{
  ℕ, zero, suc, ◌+◌, ◌%◌, ◌<◌, ◌≡◌, ◌↔◌, ◌≢◌, false, nat_eq, refl, none, some, List, [], ◌∷◌, arith,
}
use infrgate.Prelude.Text.{Text, codes}
use infrgate.Canonicalize.{Fields, number, field, end, object, canonicalize}
use infrgate.Canonicalize.Reorder.{Same}
use infrgate.Canonicalize.Tests.{a, b, a-ne-b}
use infrgate.Fingerprint.{
  SubtleCrypto, Platform, get_subtle_crypto, buffer_to_hex, encode, fingerprint,
}
use infrgate.Fingerprint.Encodable.{IsEncodable, AreEncodable}
use infrgate.Fingerprint.Distinct.{bytes_of, fingerprint_iff}
use infrgate.Canonicalize.Plain.{IsNumeral, IsPlainFields}
use infrgate.Prelude.Sort
use infrgate.Prelude.Dict.{lookup}

abbrev pub sevens : ℕ → List ℕ
sevens zero = []
sevens (suc n) = 7 ∷ sevens n

abbrev constant : SubtleCrypto
constant = record {
  digest = λ bytes. sevens 32;
  digest_size = λ bytes. refl;
  digest_bytes = λ bytes. omega arith;
}

abbrev pub platform : Platform
platform = record { global_this = none; global = some constant }

abbrev pub payload : Fields
payload = field a (number (codes "1")) (field b (number (codes "2")) end)

hex_run : buffer_to_hex (0 ∷ 171 ∷ []) ≡ codes "00ab"
unfolding buffer_to_hex
hex_run = refl

abbrev pub total : List ℕ → ℕ
total [] = 0
total (b ∷ bytes) = b + total bytes

-- A stand-in that adds the bytes up.
abbrev pub checksum : SubtleCrypto
checksum = record {
  digest = λ bytes. (total bytes % 256) ∷ sevens 31;
  digest_size = λ bytes. refl;
  digest_bytes = λ bytes. omega arith;
}

abbrev pub summing : Platform
summing = record { global_this = some checksum; global = none }

abbrev other_payload : Fields
other_payload = field a (number (codes "1")) (field b (number (codes "3")) end)

single-IsEncodable : (c : ℕ) → c < 128 → IsEncodable (c ∷ [])
single-IsEncodable c h = record { units = (omega arith, tt); paired = ground arith }

abbrev IsSound : Fields → Type 0
IsSound fs = IsPlainFields fs × AreEncodable fs

valid_with :
    (t : Text) → IsNumeral t → IsSound (field a (number (codes "1")) (field b (number t) end))
valid_with t h = (
  ((refl, tt), (a-ne-b, tt), (refl, tt), ((refl, tt), tt, h, tt)),
  (single-IsEncodable 97 (omega arith), tt, (single-IsEncodable 98 (omega arith), tt, tt)),
)

pub differ : (m n : ℕ) → nat_eq m n ≡ false → m ≢ n
differ m n h = ground arith

-- the sums of their bytes differ
told_apart :
    checksum.digest (bytes_of payload) ≡ checksum.digest (bytes_of other_payload)
    → bytes_of payload ≡ bytes_of other_payload
unfolding encode canonicalize Sort.sort lookup
told_apart e =
    absurd
      (differ (total (bytes_of payload) % 256) (total (bytes_of other_payload) % 256) refl (cc))

fingerprint_iff_example :
    (fingerprint summing payload ≡ fingerprint summing other_payload)
    ↔ Same (object payload) (object other_payload)
unfolding get_subtle_crypto
fingerprint_iff_example =
    let with_2 = valid_with (codes "2") (refl, tt) in
    let with_3 = valid_with (codes "3") (refl, tt) in
    fingerprint_iff summing checksum payload other_payload refl with_2.0 with_3.0 with_2.1 with_3.1
      told_apart
