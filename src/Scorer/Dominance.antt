-- ===== src/Scorer/Dominance.antt =====
-- A healthier provider does not score lower.
use infrgate.Prelude.{◌≡◌, true, arith}
use infrgate.Prelude.Text.{Text}
use infrgate.Scorer.{
  Arithmetic, IsArithmetic, HealthSignals, AdapterScorer, Weights, get_health, min, max, score,
  calculate_score, or_else,
}

module _ (n : Arithmetic) (laws : IsArithmetic n) where
  open n use {Carrier, leb, nought, unit, add, sub, mul, div}

  min_mono : (a x y : Carrier) → leb x y ≡ true → leb (min n x a) (min n y a) ≡ true
  min_mono a x y h =
      ground (arith, laws.total a a, laws.total x a, laws.total y a, laws.trans x y a)

  clamp_mono :
      (x y : Carrier)
      → leb x y ≡ true
      → leb (max n nought (min n unit x)) (max n nought (min n unit y)) ≡ true
  clamp_mono x y h = ground (
    arith,
    laws.nought-le-unit,
    laws.total unit unit,
    laws.total nought nought,
    laws.total unit x,
    laws.total unit y,
    laws.total nought x,
    laws.total nought y,
    laws.trans unit x y,
    laws.trans nought x y,
  )

  -- The one provider is no healthier than the other in any of the three signals.
  pub record IsWorse (g h : HealthSignals Carrier) : Type 0 where
    pub availability : leb g.availability h.availability ≡ true
    pub error_rate : leb h.ewma_error_rate g.ewma_error_rate ≡ true
    pub latency : leb h.ewma_latency_ms g.ewma_latency_ms ≡ true

  -- the weights in force are not negative
  pub record IsWeighting (w : Weights Carrier) : Type 0 where
    pub availability : leb nought (or_else w.availability n.availability_weight) ≡ true
    pub error_rate : leb nought (or_else w.error_rate n.error_weight) ≡ true
    pub latency : leb nought (or_else w.latency n.latency_weight) ≡ true

  unit_refl : leb unit unit ≡ true
  unit_refl = ground (arith, laws.total unit unit)

  score_mono :
      (w : Weights Carrier) (g h : HealthSignals Carrier)
      → IsWeighting w
      → IsWorse g h
      → leb (score n w g) (score n w h) ≡ true
  unfolding score
  score_mono w g h p q =
      let slow = laws.div_mono _ _ q.latency in
      let fast = laws.sub_mono unit unit _ _ unit_refl (min_mono unit _ _ slow) in
      let sound = laws.sub_mono unit unit _ _ unit_refl q.error_rate in
      clamp_mono _ _ (
        laws.add_mono _ _ _ _
          (laws.add_mono _ _ _ _ (laws.mul_mono _ _ _ p.availability q.availability)
            (laws.mul_mono _ _ _ p.error_rate sound))
          (laws.mul_mono _ _ _ p.latency fast))

  -- Under weights that are not negative, a provider that is no healthier than another in any of the
  -- three signals does not score higher.
  pub calculate_score_mono :
      (w : Weights Carrier) (s : AdapterScorer Carrier) (worse better : Text)
      → IsWeighting w
      → IsWorse (get_health n s worse) (get_health n s better)
      → leb (calculate_score n s worse w) (calculate_score n s better w) ≡ true
  unfolding calculate_score
  calculate_score_mono w s worse better p q =
      score_mono w (get_health n s worse) (get_health n s better) p q
