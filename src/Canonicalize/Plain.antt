-- ===== src/Canonicalize/Plain.antt =====
-- The values whose canonical texts can be read back, and these texts by a direct recursion.
use infrgate.Prelude.{◌≡◌, ◌≢◌, true, [], ◌∷◌, ◌++◌, All}
use infrgate.Prelude.Text.{Text, codes}
use infrgate.Canonicalize.{
  Value, null, undefined, boolean, number, string, array, object, Items, nil, cons, Fields, end,
  field, boolean_text,
}
use infrgate.Canonicalize.Quote.{quote}
use infrgate.Canonicalize.Unquote.{IsUnit}
use infrgate.Canonicalize.Reader.{is_numeric, is_key}

-- The text of a number has digits, signs, a point and an exponent, and is not empty.
abbrev pub IsNumeral : Text → Type 0
IsNumeral [] = ⊥
IsNumeral (c ∷ t) = All (λ d. is_numeric d ≡ true) (c ∷ t)

-- No field has the key.
abbrev pub IsFresh : Text → Fields → Type 0
IsFresh k end = Unit
IsFresh k (field j v fs) = (k ≢ j) × IsFresh k fs

abbrev pub IsDefined : Value → Type 0
IsDefined undefined = ⊥
IsDefined null = Unit
IsDefined (boolean b) = Unit
IsDefined (number t) = Unit
IsDefined (string s) = Unit
IsDefined (array xs) = Unit
IsDefined (object fs) = Unit

-- A value is plain if no element of an array is undefined, a number is a numeral, no key holds a quote,
-- and the keys of an object differ. A field may be undefined.
abbrev mutual
  pub IsPlain : Value → Type 0
  IsPlain null = Unit
  IsPlain undefined = Unit
  IsPlain (boolean b) = Unit
  IsPlain (number t) = IsNumeral t
  IsPlain (string s) = All IsUnit s
  IsPlain (array xs) = IsPlainItems xs
  IsPlain (object fs) = IsPlainFields fs

  pub IsPlainItems : Items → Type 0
  IsPlainItems nil = Unit
  IsPlainItems (cons v xs) = IsDefined v × IsPlain v × IsPlainItems xs

  pub IsPlainFields : Fields → Type 0
  IsPlainFields end = Unit
  IsPlainFields (field k v fs) =
      All (λ c. is_key c ≡ true) k × IsFresh k fs × IsPlain v × IsPlainFields fs

-- `"${key}":`
unfoldable pub key_text : Text → Text
key_text k = b'"' ∷ (k ++ codes "\":")

-- The text with the fields in the order in which they stand. `text_more` is what follows an element,
-- and `fields_more` what follows a field.
unfoldable mutual
  unfolding quote key_text

  pub text_of : Value → Text
  text_of null = codes "null"
  text_of undefined = codes "undefined"
  text_of (boolean b) = boolean_text b
  text_of (number t) = t
  text_of (string s) = quote s
  text_of (array nil) = codes "[]"
  text_of (array (cons v xs)) = b'[' ∷ (text_of v ++ text_more xs)
  text_of (object end) = codes "{}"
  text_of (object (field k v fs)) = b'{' ∷ (key_text k ++ (text_of v ++ fields_more fs))

  pub text_more : Items → Text
  text_more nil = codes "]"
  text_more (cons v xs) = b',' ∷ (text_of v ++ text_more xs)

  pub fields_more : Fields → Text
  fields_more end = codes "}"
  fields_more (field k v fs) = b',' ∷ (key_text k ++ (text_of v ++ fields_more fs))
