-- ===== src/Fingerprint/Encodable.antt =====
-- The canonical text of a plain value can be encoded: its strings are escaped, so that only a key can
-- bring a surrogate that stands alone.
use infrgate.Prelude.{
  ℕ, ◌<◌, ◌≡◌, refl, inl, inr, Bool, true, false, not, ◌&&◌, List, [], ◌∷◌, ◌++◌, All, arith,
  Bool-cases,
}
use infrgate.Prelude.Text.{Text, codes}
use infrgate.Canonicalize.{
  Value, null, undefined, boolean, number, string, array, object, Items, nil, cons, Fields, end,
  field,
}
use infrgate.Canonicalize.Quote.{escape, escape_all, is_lead, is_trail, quote}
use infrgate.Canonicalize.Unquote.{IsUnit}
use infrgate.Canonicalize.Reader.{is_numeric}
use infrgate.Canonicalize.Plain.{
  IsPlain, IsPlainItems, IsPlainFields, key_text, text_of, text_more, fields_more,
}
use infrgate.Fingerprint.Utf8.{is_well_formed, is_surrogate, is_pair}

-- A text of code units in which surrogates come in pairs.
pub record IsEncodable (t : Text) : Type 0 where
  pub units : All IsUnit t
  pub paired : is_well_formed t ≡ true

All-append {ℓ κ} :
    {A : Type ℓ} (P : A → Type κ) (xs ys : List A) → All P xs → All P ys → All P (xs ++ ys)
All-append P [] ys h k = k
All-append P (x ∷ xs) ys h k = (h.0, All-append P xs ys h.1 k)

is_well_formed-append :
    (s t : Text)
    → is_well_formed s ≡ true
    → is_well_formed t ≡ true
    → is_well_formed (s ++ t) ≡ true
is_well_formed-append [] t h k = k
is_well_formed-append (c ∷ []) [] h k = h
is_well_formed-append (c ∷ []) (d ∷ t) h k = ground arith
is_well_formed-append (c ∷ d ∷ s) t h k = elim (Bool-cases (is_pair c d)) [
  | inl pair ↦ rw pair (is_well_formed-append s t (rw pair at h) k)
  | inr apart ↦
      let (first, rest) = split (not (is_surrogate c)) (is_well_formed (d ∷ s)) (rw apart at h) in
      rw apart (rw (first, is_well_formed-append (d ∷ s) t rest k) refl)
]
  where
    split : (a b : Bool) → (a && b) ≡ true → (a ≡ true) × (b ≡ true)
    split true b e = (refl, e)
    split false b e = cc

append-IsEncodable : (s t : Text) → IsEncodable s → IsEncodable t → IsEncodable (s ++ t)
append-IsEncodable s t h k = record {
  units = All-append IsUnit s t h.units k.units;
  paired = is_well_formed-append s t h.paired k.paired;
}

escape-IsEncodable : (c : ℕ) → IsUnit c → IsEncodable (escape c)
escape-IsEncodable c h = record { units = ground arith; paired = ground arith }

escape_all-IsEncodable : (s : Text) → All IsUnit s → IsEncodable (escape_all s)
unfolding escape_all
escape_all-IsEncodable [] u = record { units = tt; paired = refl }
escape_all-IsEncodable (c ∷ []) u = escape-IsEncodable c u.0
escape_all-IsEncodable (c ∷ d ∷ s) u = elim (Bool-cases (is_lead c && is_trail d)) [
  | inl pair ↦ rw pair (
      append-IsEncodable (c ∷ d ∷ []) (escape_all s)
        (record { units = (u.0, (u.1.0, tt)); paired = ground arith })
        (escape_all-IsEncodable s u.1.1))
  | inr alone ↦ rw alone (
      append-IsEncodable (escape c) (escape_all (d ∷ s)) (escape-IsEncodable c u.0)
        (escape_all-IsEncodable (d ∷ s) u.1))
]

cons-IsEncodable : (c : ℕ) (t : Text) → c < 0xd800 → IsEncodable t → IsEncodable (c ∷ t)
cons-IsEncodable c t h k =
    append-IsEncodable (c ∷ []) t (record { units = (omega arith, tt); paired = ground arith }) k

empty-IsEncodable : IsEncodable []
empty-IsEncodable = record { units = tt; paired = refl }

numeral-IsEncodable : (t : Text) → All (λ c. is_numeric c ≡ true) t → IsEncodable t
numeral-IsEncodable [] h = empty-IsEncodable
numeral-IsEncodable (c ∷ t) h =
    let low : c < 0xd800 = ground (arith, h.0) in
    cons-IsEncodable c t low (numeral-IsEncodable t h.1)

abbrev IsLow : Text → Type 0
IsLow t = All (λ c. c < 0xd800) t

low-IsEncodable : (t : Text) → IsLow t → IsEncodable t
low-IsEncodable [] h = empty-IsEncodable
low-IsEncodable (c ∷ t) h = cons-IsEncodable c t h.0 (low-IsEncodable t h.1)

quote-IsEncodable : (s : Text) → All IsUnit s → IsEncodable (quote s)
unfolding quote
quote-IsEncodable s u = cons-IsEncodable b'"' (escape_all s ++ codes "\"") (omega arith) (
    append-IsEncodable (escape_all s) (codes "\"") (escape_all-IsEncodable s u)
      (low-IsEncodable (codes "\"") (omega arith)))

key_text-IsEncodable : (k : Text) → IsEncodable k → IsEncodable (key_text k)
unfolding key_text
key_text-IsEncodable k h =
    cons-IsEncodable b'"' (k ++ codes "\":") (omega arith)
      (append-IsEncodable k (codes "\":") h (low-IsEncodable (codes "\":") (omega arith)))

-- the keys of an object, at any depth
abbrev mutual
  pub HasEncodableKeys : Value → Type 0
  HasEncodableKeys (array xs) = HaveEncodableKeys xs
  HasEncodableKeys (object fs) = AreEncodable fs
  HasEncodableKeys null = Unit
  HasEncodableKeys undefined = Unit
  HasEncodableKeys (boolean b) = Unit
  HasEncodableKeys (number t) = Unit
  HasEncodableKeys (string s) = Unit

  pub HaveEncodableKeys : Items → Type 0
  HaveEncodableKeys nil = Unit
  HaveEncodableKeys (cons v xs) = HasEncodableKeys v × HaveEncodableKeys xs

  pub AreEncodable : Fields → Type 0
  AreEncodable end = Unit
  AreEncodable (field k v fs) = IsEncodable k × HasEncodableKeys v × AreEncodable fs

field-IsEncodable :
    (c : ℕ) (k t more : Text)
    → c < 0xd800
    → IsEncodable k
    → IsEncodable t
    → IsEncodable more
    → IsEncodable (c ∷ (key_text k ++ (t ++ more)))
field-IsEncodable c k t more low h i j = cons-IsEncodable c (key_text k ++ (t ++ more)) low (
    append-IsEncodable (key_text k) (t ++ more) (key_text-IsEncodable k h)
      (append-IsEncodable t more i j))

mutual
  unfolding text_of

  pub text_of-IsEncodable : (v : Value) → IsPlain v → HasEncodableKeys v → IsEncodable (text_of v)
  text_of-IsEncodable null p h = low-IsEncodable (codes "null") (omega arith)
  text_of-IsEncodable undefined p h = low-IsEncodable (codes "undefined") (omega arith)
  text_of-IsEncodable (boolean true) p h = low-IsEncodable (codes "true") (omega arith)
  text_of-IsEncodable (boolean false) p h = low-IsEncodable (codes "false") (omega arith)
  text_of-IsEncodable (number []) p h = absurd p
  text_of-IsEncodable (number (c ∷ t)) p h = numeral-IsEncodable (c ∷ t) p
  text_of-IsEncodable (string s) p h = quote-IsEncodable s p
  text_of-IsEncodable (array nil) p h = low-IsEncodable (codes "[]") (omega arith)
  text_of-IsEncodable (array (cons v xs)) p h =
      cons-IsEncodable b'[' (text_of v ++ text_more xs) (omega arith) (
        append-IsEncodable (text_of v) (text_more xs) (text_of-IsEncodable v p.1 h.0)
          (text_more-IsEncodable xs p.2 h.1))
  text_of-IsEncodable (object end) p h = low-IsEncodable (codes "{}") (omega arith)
  text_of-IsEncodable (object (field k v fs)) p h =
      field-IsEncodable b'{' k (text_of v) (fields_more fs) (omega arith) h.0
        (text_of-IsEncodable v p.2 h.1) (fields_more-IsEncodable fs p.3 h.2)

  text_more-IsEncodable :
      (xs : Items) → IsPlainItems xs → HaveEncodableKeys xs → IsEncodable (text_more xs)
  text_more-IsEncodable nil p h = low-IsEncodable (codes "]") (omega arith)
  text_more-IsEncodable (cons v xs) p h =
      cons-IsEncodable b',' (text_of v ++ text_more xs) (omega arith) (
        append-IsEncodable (text_of v) (text_more xs) (text_of-IsEncodable v p.1 h.0)
          (text_more-IsEncodable xs p.2 h.1))

  fields_more-IsEncodable :
      (fs : Fields) → IsPlainFields fs → AreEncodable fs → IsEncodable (fields_more fs)
  fields_more-IsEncodable end p h = low-IsEncodable (codes "}") (omega arith)
  fields_more-IsEncodable (field k v fs) p h =
      field-IsEncodable b',' k (text_of v) (fields_more fs) (omega arith) h.0
        (text_of-IsEncodable v p.2 h.1) (fields_more-IsEncodable fs p.3 h.2)
