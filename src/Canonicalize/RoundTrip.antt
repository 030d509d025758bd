-- ===== src/Canonicalize/RoundTrip.antt =====
-- The text of a plain value reads back.
use infrgate.Prelude.{
  ℕ, zero, suc, ◌<◌, ◌≡◌, refl, Bool, true, false, some, [], ◌∷◌, ◌++◌, All, length, length-append,
  arith,
}
use mathlib.Core.List.{append_assoc}
use infrgate.Prelude.Text.{Text, codes}
use infrgate.Canonicalize.{
  Value, null, undefined, boolean, number, string, array, object, Items, nil, cons, Fields, end,
  field, boolean_text,
}
use infrgate.Canonicalize.Quote.{quote}
use infrgate.Canonicalize.Unquote.{IsUnit, first_is, read_quoted-quote}
use infrgate.Canonicalize.Reader.{
  is_numeric, is_key, take_while, drop_while, after, kind, other, read_number, read_word, read_key,
  read_value, read_items, read_fields,
}
use infrgate.Canonicalize.Plain.{
  IsNumeral, IsPlain, IsPlainItems, IsPlainFields, key_text, text_of, text_more, fields_more,
}

-- The first unit of a text, if there is one, fails the test.
abbrev pub Stops : (ℕ → Bool) → Text → Type 0
Stops p [] = Unit
Stops p (c ∷ s) = p c ≡ false

take_while-append :
    (p : ℕ → Bool) (t rest : Text)
    → All (λ c. p c ≡ true) t
    → Stops p rest
    → (take_while p (t ++ rest) ≡ t) × (drop_while p (t ++ rest) ≡ rest)
unfolding take_while drop_while
take_while-append p [] [] h e = (refl, refl)
take_while-append p [] (c ∷ s) h e = (rw e refl, rw e refl)
take_while-append p (c ∷ t) rest h e = ground (arith, take_while-append p t rest h.1 e, h.0)

numeric_other : (c : ℕ) → is_numeric c ≡ true → kind c ≡ other
numeric_other c h = ground arith

read_word-numeral :
    (t rest : Text)
    → IsNumeral t
    → Stops is_numeric rest
    → read_word (t ++ rest) ≡ some (number t, rest)
unfolding read_word read_number after
read_word-numeral [] rest h e = absurd h
read_word-numeral (c ∷ t) rest h e =
    let (taken, left) = take_while-append is_numeric (c ∷ t) rest h e in
    ground (arith, taken, left, h.0)

read_word-null : (rest : Text) → read_word (codes "null" ++ rest) ≡ some (null, rest)
unfolding read_word after
read_word-null rest = refl

read_word-undefined : (rest : Text) → read_word (codes "undefined" ++ rest) ≡ some (undefined, rest)
unfolding read_word after
read_word-undefined rest = refl

read_word-boolean :
    (b : Bool) (rest : Text) → read_word (boolean_text b ++ rest) ≡ some (boolean b, rest)
unfolding read_word after
read_word-boolean true rest = refl
read_word-boolean false rest = refl

read_key-key_text :
    (k rest : Text) → All (λ c. is_key c ≡ true) k → read_key (key_text k ++ rest) ≡ some (k, rest)
unfolding read_key key_text after
read_key-key_text k rest h =
    let (taken, left) = take_while-append is_key k (codes "\":" ++ rest) h refl in
    rw append_assoc (rw (taken, left) refl)

-- A bracket does not start a value.
first_is-text_of : (v : Value) (rest : Text) → IsPlain v → first_is b']' (text_of v ++ rest) ≡ false
unfolding text_of quote
first_is-text_of undefined rest h = refl
first_is-text_of (boolean true) rest h = refl
first_is-text_of (boolean false) rest h = refl
first_is-text_of (number []) rest h = absurd h
first_is-text_of (number (c ∷ t)) rest h = ground (arith, h.0)
first_is-text_of (array nil) rest h = refl
first_is-text_of (array (cons v xs)) rest h = refl
first_is-text_of (object end) rest h = refl
first_is-text_of (object (field k v fs)) rest h = refl
first_is-text_of null rest h = refl
first_is-text_of (string s) rest h = refl

Stops-text_more : (xs : Items) (rest : Text) → Stops is_numeric (text_more xs ++ rest)
unfolding text_more
Stops-text_more nil rest = refl
Stops-text_more (cons v xs) rest = refl

Stops-fields_more : (fs : Fields) (rest : Text) → Stops is_numeric (fields_more fs ++ rest)
unfolding fields_more
Stops-fields_more end rest = refl
Stops-fields_more (field k v fs) rest = refl

first_is-key_text : (k s : Text) → first_is b'}' (key_text k ++ s) ≡ false
unfolding key_text
first_is-key_text k s = refl

regroup : (a b c d : Text) → (a ++ (b ++ c)) ++ d ≡ a ++ (b ++ (c ++ d))
regroup a b c d = simp append_assoc refl

-- One call of the reader on each kind of value.
read_value-null :
    (f : ℕ) (rest : Text) → read_value (suc f) (codes "null" ++ rest) ≡ some (null, rest)
unfolding read_value
read_value-null f rest = read_word-null rest

read_value-undefined :
    (f : ℕ) (rest : Text) → read_value (suc f) (codes "undefined" ++ rest) ≡ some (undefined, rest)
unfolding read_value
read_value-undefined f rest = read_word-undefined rest

read_value-boolean :
    (f : ℕ) (b : Bool) (rest : Text)
    → read_value (suc f) (boolean_text b ++ rest) ≡ some (boolean b, rest)
unfolding read_value
read_value-boolean f true rest = read_word-boolean true rest
read_value-boolean f false rest = read_word-boolean false rest

read_value-nil :
    (f : ℕ) (rest : Text) → read_value (suc f) (codes "[]" ++ rest) ≡ some (array nil, rest)
unfolding read_value
read_value-nil f rest = refl

read_value-end :
    (f : ℕ) (rest : Text) → read_value (suc f) (codes "{}" ++ rest) ≡ some (object end, rest)
unfolding read_value
read_value-end f rest = refl

read_items-nil : (f : ℕ) (rest : Text) → read_items (suc f) (codes "]" ++ rest) ≡ some (nil, rest)
unfolding read_value
read_items-nil f rest = refl

read_fields-end : (f : ℕ) (rest : Text) → read_fields (suc f) (codes "}" ++ rest) ≡ some (end, rest)
unfolding read_value
read_fields-end f rest = refl

read_value-numeral :
    (f : ℕ) (t rest : Text)
    → IsNumeral t
    → Stops is_numeric rest
    → read_value (suc f) (t ++ rest) ≡ some (number t, rest)
unfolding read_value
read_value-numeral f [] rest p e = absurd p
read_value-numeral f (c ∷ t) rest p e =
    rw (numeric_other c p.0, read_value) (read_word-numeral (c ∷ t) rest p e)

read_value-quote :
    (f : ℕ) (s rest : Text)
    → All IsUnit s
    → read_value (suc f) (quote s ++ rest) ≡ some (string s, rest)
unfolding read_value quote
read_value-quote f s rest u = rw (read_quoted-quote s rest u) refl

read_value-array :
    (f : ℕ) (v : Value) (xs : Items) (s s' rest : Text)
    → first_is b']' s ≡ false
    → read_value f s ≡ some (v, s')
    → read_items f s' ≡ some (xs, rest)
    → read_value (suc f) (b'[' ∷ s) ≡ some (array (cons v xs), rest)
unfolding read_value
read_value-array f v xs s s' rest h e e' = rw (h, e, e', read_value) refl

read_value-object :
    (f : ℕ) (k : Text) (v : Value) (fs : Fields) (s s' rest : Text)
    → All (λ c. is_key c ≡ true) k
    → read_value f s ≡ some (v, s')
    → read_fields f s' ≡ some (fs, rest)
    → read_value (suc f) (b'{' ∷ (key_text k ++ s)) ≡ some (object (field k v fs), rest)
unfolding read_value
read_value-object f k v fs s s' rest h e e' =
    rw (first_is-key_text, read_key-key_text k s h, e, e', read_value) refl

read_items-cons :
    (f : ℕ) (v : Value) (xs : Items) (s s' rest : Text)
    → read_value f s ≡ some (v, s')
    → read_items f s' ≡ some (xs, rest)
    → read_items (suc f) (b',' ∷ s) ≡ some (cons v xs, rest)
unfolding read_value
read_items-cons f v xs s s' rest e e' = rw (e, e', read_items) refl

read_fields-field :
    (f : ℕ) (k : Text) (v : Value) (fs : Fields) (s s' rest : Text)
    → All (λ c. is_key c ≡ true) k
    → read_value f s ≡ some (v, s')
    → read_fields f s' ≡ some (fs, rest)
    → read_fields (suc f) (b',' ∷ (key_text k ++ s)) ≡ some (field k v fs, rest)
unfolding read_value
read_fields-field f k v fs s s' rest h e e' = rw (read_key-key_text k s h, e, e', read_fields) refl

mutual
  unfolding text_of

  pub read_value-text_of :
      (f : ℕ) (v : Value) (rest : Text)
      → IsPlain v
      → Stops is_numeric rest
      → length (text_of v) < f
      → read_value f (text_of v ++ rest) ≡ some (v, rest)
  read_value-text_of zero v rest p e h = absurd (omega arith)
  read_value-text_of (suc f) null rest p e h = read_value-null f rest
  read_value-text_of (suc f) undefined rest p e h = read_value-undefined f rest
  read_value-text_of (suc f) (boolean b) rest p e h = read_value-boolean f b rest
  read_value-text_of (suc f) (number t) rest p e h = read_value-numeral f t rest p e
  read_value-text_of (suc f) (string s) rest p e h = read_value-quote f s rest p
  read_value-text_of (suc f) (array nil) rest p e h = read_value-nil f rest
  read_value-text_of (suc f) (array (cons v xs)) rest p e h =
      let more = text_more xs ++ rest in
      let size = length-append (text_of v) (text_more xs) in
      rw append_assoc (
        read_value-array f v xs (text_of v ++ more) more rest (first_is-text_of v more p.1)
          (read_value-text_of f v more p.1 (Stops-text_more xs rest) (omega (arith, size)))
          (read_items-text_more f xs rest p.2 (omega (arith, size))))
  read_value-text_of (suc f) (object end) rest p e h = read_value-end f rest
  read_value-text_of (suc f) (object (field k v fs)) rest p e h =
      let more = fields_more fs ++ rest in
      let size = length-append (text_of v) (fields_more fs) in
      let size' = length-append (key_text k) (text_of v ++ fields_more fs) in
      rw (regroup (key_text k) (text_of v) (fields_more fs) rest) (
        read_value-object f k v fs (text_of v ++ more) more rest p.0
          (read_value-text_of f v more p.2 (Stops-fields_more fs rest) (omega (arith, size, size')))
          (read_fields-fields_more f fs rest p.3 (omega (arith, size, size'))))

  read_items-text_more :
      (f : ℕ) (xs : Items) (rest : Text)
      → IsPlainItems xs
      → length (text_more xs) < f
      → read_items f (text_more xs ++ rest) ≡ some (xs, rest)
  read_items-text_more zero xs rest p h = absurd (omega arith)
  read_items-text_more (suc f) nil rest p h = read_items-nil f rest
  read_items-text_more (suc f) (cons v xs) rest p h =
      let more = text_more xs ++ rest in
      let size = length-append (text_of v) (text_more xs) in
      rw append_assoc (
        read_items-cons f v xs (text_of v ++ more) more rest
          (read_value-text_of f v more p.1 (Stops-text_more xs rest) (omega (arith, size)))
          (read_items-text_more f xs rest p.2 (omega (arith, size))))

  read_fields-fields_more :
      (f : ℕ) (fs : Fields) (rest : Text)
      → IsPlainFields fs
      → length (fields_more fs) < f
      → read_fields f (fields_more fs ++ rest) ≡ some (fs, rest)
  read_fields-fields_more zero fs rest p h = absurd (omega arith)
  read_fields-fields_more (suc f) end rest p h = read_fields-end f rest
  read_fields-fields_more (suc f) (field k v fs) rest p h =
      let more = fields_more fs ++ rest in
      let size = length-append (text_of v) (fields_more fs) in
      let size' = length-append (key_text k) (text_of v ++ fields_more fs) in
      rw (regroup (key_text k) (text_of v) (fields_more fs) rest) (
        read_fields-field f k v fs (text_of v ++ more) more rest p.0
          (read_value-text_of f v more p.2 (Stops-fields_more fs rest) (omega (arith, size, size')))
          (read_fields-fields_more f fs rest p.3 (omega (arith, size, size'))))
