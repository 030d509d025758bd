-- ===== src/Canonicalize/Unquote.antt =====
-- A reader of quoted strings, by the grammar of JSON: what `quote` writes reads back.
use infrgate.Prelude.{
  ℕ, zero, suc, ◌+◌, ◌-◌, ◌*◌, ◌≤◌, ◌<◌, ◌≡◌, refl, inl, inr, Bool, true, false, ◌&&◌, Option, none,
  some, [], ◌∷◌, ◌++◌, length, length-append, All, leb, nat_eq, arith, Bool-cases, if◌then◌else◌,
}
use mathlib.Core.List.{append_assoc}
use infrgate.Prelude.Text.{Text}
use infrgate.Canonicalize.Quote.{is_lead, is_trail, escape, escape_all, quote}

-- the value of a hexadecimal digit
abbrev hex_value : ℕ → ℕ
hex_value d = if leb d b'9' then d - b'0' else d - 87

-- the unit that a short escape stands for
abbrev short_escape : ℕ → ℕ
short_escape d =
    if nat_eq d b'b'
    then 8
    else if nat_eq d b't'
    then 9
    else if nat_eq d b'n'
    then 10
    else if nat_eq d b'f'
    then 12
    else if nat_eq d b'r'
    then 13
    else d

unfoldable read_hex : Text → Option (ℕ × Text)
read_hex (h ∷ i ∷ j ∷ k ∷ s) =
    some (((hex_value h * 16 + hex_value i) * 16 + hex_value j) * 16 + hex_value k, s)
read_hex _ = none

-- what follows a backslash
unfoldable read_escape : Text → Option (ℕ × Text)
unfolding read_hex
read_escape [] = none
read_escape (d ∷ s) = if nat_eq d b'u' then read_hex s else some (short_escape d, s)

-- one code unit, as it stands or by an escape
unfoldable pub read_unit : Text → Option (ℕ × Text)
unfolding read_escape
read_unit [] = none
read_unit (c ∷ s) = if nat_eq c 0x5c then read_escape s else some (c, s)

abbrev pub first_is : ℕ → Text → Bool
first_is c [] = false
first_is c (d ∷ s) = nat_eq d c

abbrev pub rest_of : Text → Text
rest_of [] = []
rest_of (c ∷ s) = s

-- The units up to the closing quote, which is read too. Each of them costs one of the first argument.
unfoldable pub read_units : ℕ → Text → Option (Text × Text)
unfolding read_unit
read_units zero s = none
read_units (suc f) s = if first_is b'"' s then some ([], rest_of s) else elim (read_unit s) [
  | none ↦ none
  | some (c, s') ↦ elim (read_units f s') [ none ↦ none | some (cs, s'') ↦ some (c ∷ cs, s'') ]
]

abbrev pub IsUnit : ℕ → Type 0
IsUnit c = c < 65536

read_unit-escape : (c : ℕ) (rest : Text) → IsUnit c → read_unit (escape c ++ rest) ≡ some (c, rest)
unfolding read_unit
read_unit-escape c rest h = ground arith

first_is-escape : (c : ℕ) (rest : Text) → first_is b'"' (escape c ++ rest) ≡ false
first_is-escape c rest = ground arith

-- A unit that reads as one is the first of the units that are read.
read_units-step :
    (f c : ℕ) (text s' rest cs : Text)
    → first_is b'"' text ≡ false
    → read_unit text ≡ some (c, s')
    → read_units f s' ≡ some (cs, rest)
    → read_units (suc f) text ≡ some (c ∷ cs, rest)
unfolding read_units
read_units-step f c text s' rest cs h e r = rw (h, e, r, read_units) refl

read_units-escape :
    (f c : ℕ) (tail rest cs : Text)
    → IsUnit c
    → read_units f tail ≡ some (cs, rest)
    → read_units (suc f) (escape c ++ tail) ≡ some (c ∷ cs, rest)
read_units-escape f c tail rest cs h r =
    read_units-step f c (escape c ++ tail) tail rest cs (first_is-escape c tail)
      (read_unit-escape c tail h) r

-- half of a surrogate pair stands as it is
read_units-surrogate :
    (f c : ℕ) (tail rest cs : Text)
    → leb 0xd800 c ≡ true
    → read_units f tail ≡ some (cs, rest)
    → read_units (suc f) (c ∷ tail) ≡ some (c ∷ cs, rest)
read_units-surrogate f c tail rest cs h r =
    read_units-step f c (c ∷ tail) tail rest cs (ground arith) (unfold read_unit in ground arith) r

pub read_units-escape_all :
    (f : ℕ) (s rest : Text)
    → All IsUnit s
    → length s < f
    → read_units f (escape_all s ++ (b'"' ∷ rest)) ≡ some (s, rest)
unfolding escape_all
read_units-escape_all zero s rest u h = ground arith
read_units-escape_all (suc f) [] rest u h = unfold read_units in refl
read_units-escape_all (suc f) (c ∷ []) rest u h =
    read_units-escape f c (b'"' ∷ rest) rest [] u.0
      (read_units-escape_all f [] rest tt (omega arith))
read_units-escape_all (suc zero) (c ∷ d ∷ s) rest u h = ground arith
read_units-escape_all (suc (suc f)) (c ∷ d ∷ s) rest u h =
    elim (Bool-cases (is_lead c && is_trail d)) [
      | inl pair ↦ rw pair (
          read_units-surrogate (suc f) c (d ∷ (escape_all s ++ (b'"' ∷ rest))) rest (d ∷ s)
            (ground arith)
            (read_units-surrogate f d (escape_all s ++ (b'"' ∷ rest)) rest s (ground arith)
              (read_units-escape_all f s rest (u.1.1) (omega arith))))
      | inr alone ↦
          rw (alone, append_assoc)
            (read_units-escape (suc f) c (escape_all (d ∷ s) ++ (b'"' ∷ rest)) rest (d ∷ s) u.0
              (read_units-escape_all (suc f) (d ∷ s) rest u.1 (omega arith)))
    ]

length-escape : (c : ℕ) → 1 ≤ length (escape c)
length-escape c = ground arith

length-escape_all : (s : Text) → length s ≤ length (escape_all s)
unfolding escape_all
length-escape_all [] = omega arith
length-escape_all (c ∷ []) = omega (arith, length-escape c)
length-escape_all (c ∷ d ∷ s) = elim (Bool-cases (is_lead c && is_trail d)) [
  | inl pair ↦ rw pair (omega (arith, length-escape_all s))
  | inr alone ↦
      rw (alone, length-append) (omega (arith, length-escape c, length-escape_all (d ∷ s)))
]

-- A string with its quotes.
unfoldable pub read_quoted : Text → Option (Text × Text)
unfolding read_units
read_quoted [] = none
read_quoted (c ∷ s) = if nat_eq c b'"' then read_units (length s) s else none

-- A quoted string reads back, escapes and all, whatever comes after it.
pub read_quoted-quote :
    (s rest : Text) → All IsUnit s → read_quoted (quote s ++ rest) ≡ some (s, rest)
unfolding read_quoted quote
read_quoted-quote s rest u = rw append_assoc (
    read_units-escape_all (length (escape_all s ++ (b'"' ∷ rest))) s rest u
      (omega (arith, length-escape_all s, length-append (escape_all s) (b'"' ∷ rest))))
