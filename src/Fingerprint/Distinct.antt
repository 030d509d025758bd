-- ===== src/Fingerprint/Distinct.antt =====
-- Different payloads have different fingerprints, as far as the digest tells their bytes apart.
use infrgate.Prelude.{ℕ, ◌≡◌, ◌↔◌, ap, inl, inr, List, Bool-cases}
use infrgate.Prelude.Text.{Text}
use infrgate.Prelude.Error.{ok}
use infrgate.Canonicalize.{
  Value, null, undefined, boolean, number, string, array, object, Items, nil, cons, Fields, end,
  field, text_leb, canonicalize, or_empty,
}
use infrgate.Canonicalize.Reorder.{Same, order_independent}
use infrgate.Canonicalize.Plain.{IsPlainFields}
use infrgate.Canonicalize.Normal.{insert_field, normal, normal_items, normal_fields, normal-IsPlain}
use infrgate.Canonicalize.Faithful.{canonicalize-normal}
use infrgate.Canonicalize.Meaning.{canonicalize_iff}
use infrgate.Fingerprint.{SubtleCrypto, Platform, get_subtle_crypto, encode, sha256, fingerprint}
use infrgate.Fingerprint.Encodable.{
  IsEncodable, HasEncodableKeys, HaveEncodableKeys, AreEncodable, text_of-IsEncodable,
}
use infrgate.Fingerprint.Payload.{fingerprint_digest}
use infrgate.Fingerprint.Utf8.{encode-injective}

insert_field-AreEncodable :
    (k : Text) (v : Value) (fs : Fields)
    → IsEncodable k
    → HasEncodableKeys v
    → AreEncodable fs
    → AreEncodable (insert_field k v fs)
unfolding insert_field
insert_field-AreEncodable k v end h i j = (h, i, tt)
insert_field-AreEncodable k v (field l w fs) h i j = elim (Bool-cases (text_leb k l)) [
  | inl e ↦ rw e (h, i, j)
  | inr e ↦ rw e (j.0, j.1, insert_field-AreEncodable k v fs h i j.2)
]

mutual
  unfolding normal

  normal-HasEncodableKeys : (v : Value) → HasEncodableKeys v → HasEncodableKeys (normal v)
  normal-HasEncodableKeys null h = tt
  normal-HasEncodableKeys undefined h = tt
  normal-HasEncodableKeys (boolean b) h = tt
  normal-HasEncodableKeys (number t) h = tt
  normal-HasEncodableKeys (string s) h = tt
  normal-HasEncodableKeys (array xs) h = normal_items-HaveEncodableKeys xs h
  normal-HasEncodableKeys (object fs) h = normal_fields-AreEncodable fs h

  normal_items-HaveEncodableKeys :
      (xs : Items) → HaveEncodableKeys xs → HaveEncodableKeys (normal_items xs)
  normal_items-HaveEncodableKeys nil h = tt
  normal_items-HaveEncodableKeys (cons v xs) h =
      (normal-HasEncodableKeys v h.0, normal_items-HaveEncodableKeys xs h.1)

  normal_fields-AreEncodable : (fs : Fields) → AreEncodable fs → AreEncodable (normal_fields fs)
  normal_fields-AreEncodable end h = tt
  normal_fields-AreEncodable (field k v fs) h =
      insert_field-AreEncodable k (normal v) (normal_fields fs) h.0 (normal-HasEncodableKeys v h.1)
        (normal_fields-AreEncodable fs h.2)

-- what the digest is taken of
abbrev pub bytes_of : Fields → List ℕ
bytes_of fs = encode (or_empty (canonicalize (object fs)))

text-IsEncodable :
    (fs : Fields)
    → IsPlainFields fs
    → AreEncodable fs
    → IsEncodable (or_empty (canonicalize (object fs)))
text-IsEncodable fs p h = rw (canonicalize-normal (object fs) tt p) (
    text_of-IsEncodable (normal (object fs)) (normal-IsPlain (object fs) p)
      (normal-HasEncodableKeys (object fs) h))

-- Two plain payloads with keys that can be encoded have the same bytes only if they are the same.
bytes_of-injective :
    (fs gs : Fields)
    → IsPlainFields fs
    → IsPlainFields gs
    → AreEncodable fs
    → AreEncodable gs
    → bytes_of fs ≡ bytes_of gs
    → Same (object fs) (object gs)
bytes_of-injective fs gs p q h k e =
    let here = text-IsEncodable fs p h in
    let there = text-IsEncodable gs q k in
    let texts =
      encode-injective (or_empty (canonicalize (object fs))) (or_empty (canonicalize (object gs)))
        here.units there.units here.paired there.paired e in
    let whole = canonicalize-normal (object fs) tt p in
    let whole' = canonicalize-normal (object gs) tt q in
    (canonicalize_iff (object fs) (object gs) tt tt p q).0 (cc (texts, whole, whole'))

-- Where the platform has the digest, and the digest tells the bytes of two plain payloads apart if they
-- differ, the payloads have one fingerprint exactly when they are the same up to the order of keys, at
-- any depth. Their keys are texts in which no surrogate stands alone.
pub fingerprint_iff :
    (p : Platform) (subtle : SubtleCrypto) (fs gs : Fields)
    → get_subtle_crypto p ≡ ok subtle
    → IsPlainFields fs
    → IsPlainFields gs
    → AreEncodable fs
    → AreEncodable gs
    → (subtle.digest (bytes_of fs) ≡ subtle.digest (bytes_of gs) → bytes_of fs ≡ bytes_of gs)
    → (fingerprint p fs ≡ fingerprint p gs) ↔ Same (object fs) (object gs)
unfolding fingerprint
fingerprint_iff p subtle fs gs e plain plain' h k apart =
    let (t, hash, _, back) = fingerprint_digest p subtle fs e in
    let (t', hash', _, back') = fingerprint_digest p subtle gs e in
    let one : fingerprint p fs ≡ fingerprint p gs → Same (object fs) (object gs) = λ equal.
      bytes_of-injective fs gs plain plain' h k (apart (cc (equal, hash, hash', back, back'))) in
    (one, λ s. ap (λ u. sha256 p (or_empty u)) (order_independent s))
