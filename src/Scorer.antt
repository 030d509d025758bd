-- ===== src/Scorer.antt =====
-- packages/sdk/src/circuit-breaker.ts, `AdapterScorer`: the health of providers. Its numbers are binary
-- fractions, whose arithmetic is a parameter of the model: the operations, the constants that the code
-- writes down, and, for the theorems, the laws that the arithmetic of finite such numbers obeys,
-- rounding included.
pub mod Bounds
pub mod Dominance
pub mod Tests
use infrgate.Prelude.{◌≡◌, Bool, true, false, Option, none, some, [], if◌then◌else◌}
use infrgate.Prelude.Text.{Text}
use infrgate.Prelude.Eq.{List-eq}
use infrgate.Prelude.Dict.{Dict, lookup, insert}
use infrgate.CircuitBreaker.{CircuitState, closed, opened, half_open}

pub record Arithmetic : Type 1 where
  pub Carrier : Type 0
  pub add : Carrier → Carrier → Carrier
  pub sub : Carrier → Carrier → Carrier
  pub mul : Carrier → Carrier → Carrier
  pub div : Carrier → Carrier → Carrier
  pub leb : Carrier → Carrier → Bool
  -- 0, 1, 0.5
  pub nought : Carrier
  pub unit : Carrier
  pub half : Carrier
  -- 0.3, 1000.0, 5000, and the weights 0.4, 0.4 and 0.2
  pub default_alpha : Carrier
  pub baseline_latency : Carrier
  pub worst_latency : Carrier
  pub availability_weight : Carrier
  pub error_weight : Carrier
  pub latency_weight : Carrier

-- What finite binary fractions obey: sums, differences, products and quotients are rounded, which
-- keeps their order, and a share and its complement add up to 1.
pub record IsArithmetic (n : Arithmetic) : Type 0 where
  pub total : (a b : n.Carrier) → n.leb a b ≡ false → n.leb b a ≡ true
  pub trans : (a b c : n.Carrier) → n.leb a b ≡ true → n.leb b c ≡ true → n.leb a c ≡ true
  pub nought-le-unit : n.leb n.nought n.unit ≡ true
  pub nought-le-half : n.leb n.nought n.half ≡ true
  pub half-le-unit : n.leb n.half n.unit ≡ true
  pub add_mono :
      (a b c d : n.Carrier)
      → n.leb a b ≡ true
      → n.leb c d ≡ true
      → n.leb (n.add a c) (n.add b d) ≡ true
  pub sub_mono :
      (a b c d : n.Carrier)
      → n.leb a b ≡ true
      → n.leb c d ≡ true
      → n.leb (n.sub a d) (n.sub b c) ≡ true
  pub mul_mono :
      (a b c : n.Carrier)
      → n.leb n.nought a ≡ true
      → n.leb b c ≡ true
      → n.leb (n.mul a b) (n.mul a c) ≡ true
  pub div_mono :
      (a b : n.Carrier)
      → n.leb a b ≡ true
      → n.leb (n.div a n.worst_latency) (n.div b n.worst_latency) ≡ true
  pub add-nought : n.add n.nought n.nought ≡ n.nought
  pub mul-nought : (a : n.Carrier) → n.mul a n.nought ≡ n.nought
  pub mul-unit : (a : n.Carrier) → n.mul a n.unit ≡ a
  pub sub-self : (a : n.Carrier) → n.sub a a ≡ n.nought
  pub share :
      (a : n.Carrier)
      → n.leb n.nought a ≡ true
      → n.leb a n.unit ≡ true
      → n.add a (n.sub n.unit a) ≡ n.unit
  pub sub-nought : (a b : n.Carrier) → n.leb (n.sub a b) n.nought ≡ n.leb a b

pub record HealthSignals (A : Type 0) : Type 0 where
  pub availability : A
  pub ewma_error_rate : A
  pub ewma_latency_ms : A

pub record AdapterScorer (A : Type 0) : Type 0 where
  pub health_metrics : Dict Text (HealthSignals A)
  pub alpha : A

-- the weights that a caller gives
pub record Weights (A : Type 0) : Type 0 where
  pub availability : Option A
  pub error_rate : Option A
  pub latency : Option A

abbrev pub or_else {ℓ} : {A : Type ℓ} → Option A → A → A
or_else none d = d
or_else (some a) d = a

module _ (n : Arithmetic) where
  open n use {Carrier, add, sub, mul, div, leb, nought, unit}

  -- the constructor
  unfoldable pub new : Option Carrier → AdapterScorer Carrier
  new alpha = record { health_metrics = []; alpha = or_else alpha n.default_alpha }

  abbrev pub cold_start : HealthSignals Carrier
  cold_start = record {
    availability = unit;
    ewma_error_rate = nought;
    ewma_latency_ms = n.baseline_latency;
  }

  unfoldable pub get_health : AdapterScorer Carrier → Text → HealthSignals Carrier
  get_health s provider = or_else (lookup provider s.health_metrics) cold_start

  -- α · sample + (1 - α) · current
  abbrev pub ewma : Carrier → Carrier → Carrier → Carrier
  ewma alpha sample current = add (mul alpha sample) (mul (sub unit alpha) current)

  unfoldable pub record_signal :
      AdapterScorer Carrier → Text → Carrier → Bool → AdapterScorer Carrier
  unfolding get_health
  record_signal s provider latency is_error =
      let current = get_health s provider in
      record s {
        health_metrics =
            insert provider
              (record {
                availability = current.availability;
                ewma_error_rate =
                    ewma s.alpha (if is_error then unit else nought) current.ewma_error_rate;
                ewma_latency_ms = ewma s.alpha latency current.ewma_latency_ms;
              })
              s.health_metrics;
      }

  abbrev pub availability_of : CircuitState → Carrier
  availability_of closed = unit
  availability_of half_open = n.half
  availability_of opened = nought

  unfoldable pub update_availability :
      AdapterScorer Carrier → Text → CircuitState → AdapterScorer Carrier
  unfolding get_health
  update_availability s provider state =
      let current = get_health s provider in
      record s {
        health_metrics =
            insert provider (record current { availability = availability_of state })
              s.health_metrics;
      }

  -- Math.min and Math.max
  abbrev pub min : Carrier → Carrier → Carrier
  min a b = if leb a b then a else b

  abbrev pub max : Carrier → Carrier → Carrier
  max a b = if leb a b then b else a

  -- the score of some health signals, under the weights that are left
  unfoldable pub score : Weights Carrier → HealthSignals Carrier → Carrier
  score w health =
      let latency_score = sub unit (min (div health.ewma_latency_ms n.worst_latency) unit) in
      let weighted =
        add
          (add (mul (or_else w.availability n.availability_weight) health.availability)
            (mul (or_else w.error_rate n.error_weight) (sub unit health.ewma_error_rate)))
          (mul (or_else w.latency n.latency_weight) latency_score) in
      max nought (min unit weighted)

  unfoldable pub calculate_score : AdapterScorer Carrier → Text → Weights Carrier → Carrier
  unfolding get_health score
  calculate_score s provider weights = score weights (get_health s provider)
