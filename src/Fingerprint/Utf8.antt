-- ===== src/Fingerprint/Utf8.antt =====
-- The bytes of a text can be read back, if no surrogate in it stands alone.
use infrgate.Prelude.{
  ℕ, zero, suc, ◌+◌, ◌-◌, ◌*◌, ◌/◌, ◌%◌, ◌<◌, ◌≡◌, refl, inl, inr, Bool, true, false, not, ◌&&◌,
  Option, none, some, List, [], ◌∷◌, ◌++◌, length, All, ltb, leb, arith, Bool-cases, if◌then◌else◌,
}
use mathlib.Core.List.{append-nil}
use infrgate.Prelude.Text.{Text}
use infrgate.Fingerprint.{encode_unit, encode_pair, encode}

abbrev pub is_surrogate : ℕ → Bool
is_surrogate c = leb 0xd800 c && leb c 0xdfff

abbrev pub is_pair : ℕ → ℕ → Bool
is_pair c d = leb 0xd800 c && leb c 0xdbff && (leb 0xdc00 d && leb d 0xdfff)

-- Surrogates come in pairs.
abbrev pub is_well_formed : Text → Bool
is_well_formed [] = true
is_well_formed (c ∷ []) = not (is_surrogate c)
is_well_formed (c ∷ d ∷ s) =
    let alone = not (is_surrogate c) && is_well_formed (d ∷ s) in
    let paired = is_well_formed s in if is_pair c d then paired else alone

-- the code point of a pair, as its two units
abbrev units_of : ℕ → Text
units_of p = (0xd800 + (p - 65536) / 1024) ∷ (0xdc00 + (p - 65536) % 1024) ∷ []

-- one code point, as its units, and the bytes that follow it
unfoldable read_point : List ℕ → Option (Text × List ℕ)
read_point (a ∷ b ∷ c ∷ d ∷ s) =
    if ltb a 0x80
    then some (a ∷ [], b ∷ c ∷ d ∷ s)
    else if ltb a 0xe0
    then some (((a - 192) * 64 + (b - 128)) ∷ [], c ∷ d ∷ s)
    else if ltb a 0xf0
    then some ((((a - 224) * 64 + (b - 128)) * 64 + (c - 128)) ∷ [], d ∷ s)
    else some (units_of ((((a - 240) * 64 + (b - 128)) * 64 + (c - 128)) * 64 + (d - 128)), s)
read_point (a ∷ b ∷ c ∷ []) =
    if ltb a 0x80
    then some (a ∷ [], b ∷ c ∷ [])
    else if ltb a 0xe0
    then some (((a - 192) * 64 + (b - 128)) ∷ [], c ∷ [])
    else some ((((a - 224) * 64 + (b - 128)) * 64 + (c - 128)) ∷ [], [])
read_point (a ∷ b ∷ []) =
    if ltb a 0x80 then some (a ∷ [], b ∷ []) else some (((a - 192) * 64 + (b - 128)) ∷ [], [])
read_point (a ∷ []) = some (a ∷ [], [])
read_point [] = none

read_point-encode_unit :
    (c : ℕ) (rest : List ℕ)
    → c < 65536
    → is_surrogate c ≡ false
    → read_point (encode_unit c ++ rest) ≡ some (c ∷ [], rest)
unfolding read_point
read_point-encode_unit c [] h e = ground arith
read_point-encode_unit c (x ∷ []) h e = ground arith
read_point-encode_unit c (x ∷ y ∷ []) h e = ground arith
read_point-encode_unit c (x ∷ y ∷ z ∷ s) h e = ground arith

read_point-encode_pair :
    (c d : ℕ) (rest : List ℕ)
    → is_pair c d ≡ true
    → read_point (encode_pair c d ++ rest) ≡ some (c ∷ d ∷ [], rest)
unfolding read_point
read_point-encode_pair c d rest e = ground arith

-- The units of the bytes. Each code point costs one of the first argument.
unfoldable decode : ℕ → List ℕ → Option Text
unfolding read_point
decode zero bytes = none
decode (suc f) [] = some []
decode (suc f) (b ∷ bytes) = elim (read_point (b ∷ bytes)) [
  | none ↦ none
  | some (units, rest) ↦ elim (decode f rest) [ none ↦ none | some s ↦ some (units ++ s) ]
]

decode-step :
    (f : ℕ) (bytes rest : List ℕ) (units s : Text)
    → read_point bytes ≡ some (units, rest)
    → decode f rest ≡ some s
    → decode (suc f) bytes ≡ some (units ++ s)
unfolding decode read_point
decode-step f [] rest units s e r = cc
decode-step f (b ∷ bytes) rest units s e r = rw (e, r, decode) refl

decode-encode :
    (f : ℕ) (s : Text)
    → All (λ c. c < 65536) s
    → is_well_formed s ≡ true
    → length s < f
    → decode f (encode s) ≡ some s
unfolding encode
decode-encode zero s u w h = absurd (omega arith)
decode-encode (suc f) [] u w h = unfold decode in refl
decode-encode (suc f) (c ∷ []) u w h =
    let first = read_point-encode_unit c [] u.0 (ground arith) in
    decode-step f (encode_unit c) [] (c ∷ []) [] (rw append-nil at first)
      (decode-encode f [] tt refl (omega arith))
decode-encode (suc f) (c ∷ d ∷ s) u w h = elim (Bool-cases (is_pair c d)) [
  | inl pair ↦ rw pair (
      decode-step f (encode_pair c d ++ encode s) (encode s) (c ∷ d ∷ []) s
        (read_point-encode_pair c d (encode s) pair)
        (decode-encode f s u.1.1 (rw pair at w) (omega arith)))
  | inr apart ↦ rw apart (
      decode-step f (encode_unit c ++ encode (d ∷ s)) (encode (d ∷ s)) (c ∷ []) (d ∷ s)
        (read_point-encode_unit c (encode (d ∷ s)) u.0 (ground (arith, rw apart at w)))
        (decode-encode f (d ∷ s) u.1 (ground (arith, rw apart at w)) (omega arith)))
]

-- No two such texts have the same bytes.
pub encode-injective :
    (s t : Text)
    → All (λ c. c < 65536) s
    → All (λ c. c < 65536) t
    → is_well_formed s ≡ true
    → is_well_formed t ≡ true
    → encode s ≡ encode t
    → s ≡ t
encode-injective s t u u' w w' e =
    let enough = suc (length s + length t) in
    let here = decode-encode enough s u w (omega arith) in
    let there = decode-encode enough t u' w' (omega arith) in cc (here, there, e)
