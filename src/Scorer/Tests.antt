-- ===== src/Scorer/Tests.antt =====
-- An arithmetic that obeys the laws, and the scorer's theorems at concrete inputs.
use native.Mathlib.Nat.{le-div_iff_mul-le, div-mul-le_self}
use infrgate.Prelude.{
  ℕ, zero, suc, ◌+◌, ◌-◌, ◌*◌, ◌/◌, ◌≤◌, ◌≡◌, refl, true, false, none, some, List, [], ◌∷◌, arith,
  leb, leb→le, le→leb,
}
use infrgate.Prelude.Text.{Text, codes}
use infrgate.Prelude.Dict.{lookup, insert}
use infrgate.CircuitBreaker.{half_open}
use infrgate.Scorer.{
  Arithmetic, IsArithmetic, Weights, AdapterScorer, new, get_health, record_signal,
  update_availability, calculate_score,
}
use infrgate.Scorer.Bounds.{Op, record_op, update_op, step, run}
use infrgate.Scorer.Dominance.{calculate_score_mono}

-- Thousandths, rounded down, with a difference that stops at 0.
abbrev pub thousandths : Arithmetic
thousandths = record {
  Carrier = ℕ;
  add = λ a b. a + b;
  sub = λ a b. a - b;
  mul = λ a b. a * b / 1000;
  div = λ a b. a * 1000 / b;
  leb = leb;
  nought = 0;
  unit = 1000;
  half = 500;
  default_alpha = 300;
  baseline_latency = 1000000;
  worst_latency = 5000000;
  availability_weight = 400;
  error_weight = 400;
  latency_weight = 200;
}

product_mono : (a b c : ℕ) → b ≤ c → a * b / 1000 ≤ a * c / 1000
product_mono a b c h = grind arith

quotient_mono_by : (a b c : ℕ) → a ≤ b → a * 1000 / c ≤ b * 1000 / c
quotient_mono_by a b zero h = omega arith
quotient_mono_by a b (suc c) h =
    (le-div_iff_mul-le (omega arith)).1 (omega (arith, div-mul-le_self (a * 1000) (suc c)))

pub thousandths-IsArithmetic : IsArithmetic thousandths
thousandths-IsArithmetic = record {
  total = λ a b h. ground arith;
  trans = λ a b c h k. ground arith;
  nought-le-unit = refl;
  nought-le-half = refl;
  half-le-unit = refl;
  add_mono = λ a b c d h k. ground arith;
  sub_mono = λ a b c d h k. ground arith;
  mul_mono = λ a b c h k. le→leb _ _ (product_mono a b c (leb→le _ _ k));
  div_mono = λ a b k. le→leb _ _ (quotient_mono_by a b 5000000 (leb→le _ _ k));
  add-nought = refl;
  mul-nought = λ a. omega arith;
  mul-unit = λ a. omega arith;
  sub-self = λ a. omega arith;
  share = λ a h k. ground arith;
  sub-nought = λ a b. ground arith;
}

abbrev openai : Text
openai = codes "openai"

abbrev groq : Text
groq = codes "groq"

abbrev history : List (Op ℕ)
history =
    record_op openai 512000 true ∷ update_op openai half_open ∷ record_op groq 89000 false ∷ []

abbrev scorer : AdapterScorer ℕ
scorer = run thousandths history (new thousandths (some 300))

abbrev pub default_weights : Weights ℕ
default_weights = record { availability = none; error_rate = none; latency = none }

score_run : calculate_score thousandths scorer groq default_weights ≡ 971
unfolding run step update_availability new record_signal calculate_score get_health lookup insert
score_run = refl

calculate_score_mono_example :
    leb
      (calculate_score thousandths scorer openai default_weights)
      (calculate_score thousandths scorer groq default_weights)
    ≡ true
unfolding run new record_signal get_health lookup insert step update_availability
calculate_score_mono_example =
    calculate_score_mono thousandths thousandths-IsArithmetic default_weights scorer openai groq
      (record { availability = refl; error_rate = refl; latency = refl })
      (record { availability = refl; error_rate = refl; latency = refl })
