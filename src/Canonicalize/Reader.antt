-- ===== src/Canonicalize/Reader.antt =====
-- A reader of canonical texts, by recursive descent: an independent account of what they mean. Keys
-- stand between quotes as they are; all else is JSON without spaces, but for
-- the word `undefined`.
use infrgate.Prelude.{
  ℕ, zero, suc, Bool, true, false, not, ◌&&◌, ◌||◌, Option, none, some, [], ◌∷◌, length, leb,
  nat_eq, if◌then◌else◌,
}
use infrgate.Prelude.Text.{Text, codes}
use infrgate.Canonicalize.{
  Value, null, undefined, boolean, number, string, array, object, Items, nil, cons, Fields, end,
  field,
}
use infrgate.Canonicalize.Unquote.{first_is, rest_of, read_quoted}

module _ {ℓ κ} {A : Type ℓ} {B : Type κ} where
  infixl 1 ◌>>=◌
  abbrev pub ◌>>=◌ : Option A → (A → Option B) → Option B
  none >>= f = none
  some a >>= f = f a

abbrev pub is_numeric : ℕ → Bool
is_numeric c =
    leb b'0' c && leb c b'9'
    || (nat_eq c b'-' || (nat_eq c b'+' || (nat_eq c b'.' || nat_eq c b'e')))

-- the units up to the first one that fails a test, and what follows them
unfoldable pub take_while : (ℕ → Bool) → Text → Text
take_while p [] = []
take_while p (c ∷ s) = let more = take_while p s in if p c then c ∷ more else []

unfoldable pub drop_while : (ℕ → Bool) → Text → Text
drop_while p [] = []
drop_while p (c ∷ s) = let more = drop_while p s in if p c then more else c ∷ s

-- what follows a given text
unfoldable pub after : Text → Text → Option Text
after [] s = some s
after (c ∷ t) [] = none
after (c ∷ t) (d ∷ s) = let more = after t s in if nat_eq c d then more else none

pub data Kind : Type 0 where
  quotes bracket brace other : Kind

abbrev pub kind : ℕ → Kind
kind c =
    if nat_eq c b'"'
    then quotes
    else if nat_eq c b'['
    then bracket
    else if nat_eq c b'{'
    then brace
    else other

unfoldable pub read_number : Text → Option (Value × Text)
unfolding take_while drop_while
read_number s = elim (take_while is_numeric s) [
  | [] ↦ none
  | c ∷ t ↦ some (number (c ∷ t), drop_while is_numeric s)
]

-- a value with no others in it and no quotes
unfoldable pub read_word : Text → Option (Value × Text)
unfolding after read_number
read_word s = elim (after (codes "null") s) [
  | some rest ↦ some (null, rest)
  | none ↦ elim (after (codes "true") s) [
    | some rest ↦ some (boolean true, rest)
    | none ↦ elim (after (codes "false") s) [
      | some rest ↦ some (boolean false, rest)
      | none ↦ elim (after (codes "undefined") s) [
        | some rest ↦ some (undefined, rest)
        | none ↦ read_number s
      ]
    ]
  ]
]

abbrev pub is_key : ℕ → Bool
is_key c = not (nat_eq c b'"')

-- `"${key}":`, from the opening quote on
unfoldable pub read_key : Text → Option (Text × Text)
unfolding take_while drop_while after
read_key [] = none
read_key (c ∷ s) =
    if nat_eq c b'"'
    then (after (codes "\":") (drop_while is_key s) >>= λ rest. some (take_while is_key s, rest))
    else none

-- Each call costs one of the first argument.
unfoldable mutual
  unfolding read_word read_quoted read_key

  pub read_value : ℕ → Text → Option (Value × Text)
  read_value zero s = none
  read_value (suc f) [] = none
  read_value (suc f) (c ∷ s) = elim (kind c) [
    | quotes ↦ read_quoted (c ∷ s) >>= λ (t, rest). some (string t, rest)
    | bracket ↦ elim (first_is b']' s) [
      | true ↦ some (array nil, rest_of s)
      | false ↦ read_value f s >>= λ (v, s').
          read_items f s' >>= λ (xs, rest). some (array (cons v xs), rest)
    ]
    | brace ↦ elim (first_is b'}' s) [
      | true ↦ some (object end, rest_of s)
      | false ↦ read_key s >>= λ (k, s'). read_value f s' >>= λ (v, s'').
          read_fields f s'' >>= λ (fs, rest). some (object (field k v fs), rest)
    ]
    | other ↦ read_word (c ∷ s)
  ]

  -- the elements after the first one, up to the bracket
  pub read_items : ℕ → Text → Option (Items × Text)
  read_items zero s = none
  read_items (suc f) s = elim (first_is b']' s) [
    | true ↦ some (nil, rest_of s)
    | false ↦ elim (first_is b',' s) [
      | false ↦ none
      | true ↦ read_value f (rest_of s) >>= λ (v, s').
          read_items f s' >>= λ (xs, rest). some (cons v xs, rest)
    ]
  ]

  -- the fields after the first one, up to the brace
  pub read_fields : ℕ → Text → Option (Fields × Text)
  read_fields zero s = none
  read_fields (suc f) s = elim (first_is b'}' s) [
    | true ↦ some (end, rest_of s)
    | false ↦ elim (first_is b',' s) [
      | false ↦ none
      | true ↦ read_key (rest_of s) >>= λ (k, s'). read_value f s' >>= λ (v, s'').
          read_fields f s'' >>= λ (fs, rest). some (field k v fs, rest)
    ]
  ]

-- a whole text
unfoldable pub read : Text → Option Value
unfolding read_value
read s = read_value (suc (length s)) s >>= λ (v, rest). elim rest [ [] ↦ some v | c ∷ t ↦ none ]
