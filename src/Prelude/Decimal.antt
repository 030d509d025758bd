-- ===== src/Prelude/Decimal.antt =====
-- The text of a whole number in a template: `${n}`.
use Prim.Native.Nat.{ℕ, zero, suc, ◌+◌, ◌-◌, ◌*◌, ◌/◌, ◌%◌, ◌≤◌, ◌<◌}
use mathlib.Core.Path.{◌≡◌, refl, sym, ap, ◌∙◌}
use mathlib.Core.List.{[], ◌∷◌}
use mathlib.Core.Bool.{Bool, true, false}
use mathlib.Core.Logic.{inl, inr}
use native.Mathlib.Omega.{arith}
use infrgate.Prelude.Tests.{Bool-cases, ltb→lt, ltb, if◌then◌else◌}
use infrgate.Prelude.Text.{Text, codes}

-- the digits before those that are there; a number has no more digits than its successor says
digits_onto : ℕ → ℕ → Text → Text
digits_onto zero n rest = rest
digits_onto (suc fuel) n rest =
    let digit = b'0' + n % 10 in
    let more = digits_onto fuel (n / 10) (digit ∷ rest) in if ltb n 10 then digit ∷ rest else more

unfoldable pub decimal : ℕ → Text
unfolding digits_onto
decimal n = digits_onto (suc n) n []

-- the number that digits stand for, after those that came before
abbrev read : ℕ → Text → ℕ
read before [] = before
read before (c ∷ digits) = read (before * 10 + (c - b'0')) digits

read-digits_onto :
    (fuel n : ℕ) (rest : Text) → n < fuel → read 0 (digits_onto fuel n rest) ≡ read n rest
unfolding digits_onto
read-digits_onto zero n rest h = absurd (omega arith)
read-digits_onto (suc fuel) n rest h = elim (Bool-cases (ltb n 10)) [
  | inl few ↦
      let small : n < 10 = ltb→lt n 10 few in
      let same : 0 * 10 + (b'0' + n % 10 - b'0') ≡ n = omega arith in
      rw few (ap (λ k. read k rest) same)
  | inr many ↦
      let large : 10 ≤ n = ground arith in
      let same : n / 10 * 10 + (b'0' + n % 10 - b'0') ≡ n = omega arith in
      rw many (
        read-digits_onto fuel (n / 10) ((b'0' + n % 10) ∷ rest) (omega arith)
        ∙ ap (λ k. read k rest) same)
]

-- Different numbers have different texts.
pub decimal-injective : (m n : ℕ) → decimal m ≡ decimal n → m ≡ n
unfolding decimal
decimal-injective m n e =
    sym (read-digits_onto (suc m) m [] (omega arith))
    ∙ ap (read 0) e
    ∙ read-digits_onto (suc n) n [] (omega arith)

abbrev pub is_cons : Text → Bool
is_cons [] = false
is_cons (c ∷ s) = true

is_cons-digits_onto : (fuel n c : ℕ) (rest : Text) → is_cons (digits_onto fuel n (c ∷ rest)) ≡ true
unfolding digits_onto
is_cons-digits_onto zero n c rest = refl
is_cons-digits_onto (suc fuel) n c rest =
    ground (arith, is_cons-digits_onto fuel (n / 10) (b'0' + n % 10) (c ∷ rest))

pub is_cons-decimal : (n : ℕ) → is_cons (decimal n) ≡ true
unfolding decimal
is_cons-decimal n = ground (arith, is_cons-digits_onto n (n / 10) (b'0' + n % 10) [])

decimal_run : decimal 1207 ≡ codes "1207"
unfolding decimal
decimal_run = refl
