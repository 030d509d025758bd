-- ===== src/Scorer/Bounds.antt =====
-- The ranges of health signals and of scores.
use infrgate.Prelude.{
  ◌≡◌, Bool, true, false, some, List, [], ◌∷◌, arith, Bool-cases, inl, inr, if◌then◌else◌,
}
use infrgate.Prelude.Text.{Text}
use infrgate.Prelude.Eq.{List-eq, ◌==◌}
use infrgate.Prelude.Dict.{lookup, insert, lookup-insert}
use infrgate.CircuitBreaker.{CircuitState, closed, opened, half_open}
use infrgate.Scorer.{
  Arithmetic, IsArithmetic, HealthSignals, AdapterScorer, Weights, new, get_health, ewma,
  record_signal, availability_of, update_availability, min, max, calculate_score,
}

-- A call that changes the scorer.
pub data Op (A : Type 0) : Type 0 where
  record_op : Text → A → Bool → Op A
  update_op : Text → CircuitState → Op A

module _ (n : Arithmetic) where
  open n use {Carrier, leb, nought, unit, add, sub, mul}

  unfoldable pub step : Op Carrier → AdapterScorer Carrier → AdapterScorer Carrier
  step (record_op provider latency is_error) s = record_signal n s provider latency is_error
  step (update_op provider state) s = update_availability n s provider state

  unfoldable pub run : List (Op Carrier) → AdapterScorer Carrier → AdapterScorer Carrier
  run [] s = s
  run (op ∷ ops) s = run ops (step op s)

  abbrev pub IsShare : Carrier → Type 0
  IsShare a = (leb nought a ≡ true) × (leb a unit ≡ true)

  -- the availability and the error rate are shares
  abbrev pub IsHealthy : HealthSignals Carrier → Type 0
  IsHealthy h = IsShare h.availability × IsShare h.ewma_error_rate

  pub record IsValid (s : AdapterScorer Carrier) : Type 0 where
    pub alpha_share : IsShare s.alpha
    pub healthy : (provider : Text) → IsHealthy (get_health n s provider)

module _ (n : Arithmetic) (laws : IsArithmetic n) where
  open n use {Carrier, leb, nought, unit, add, sub, mul}

  leb_refl : (a : Carrier) → leb a a ≡ true
  leb_refl a = ground (arith, laws.total a a)

  rest_nonneg : (alpha : Carrier) → leb alpha unit ≡ true → leb nought (sub unit alpha) ≡ true
  rest_nonneg alpha h =
      rw (laws.sub-self alpha) at (laws.sub_mono alpha unit alpha alpha h (leb_refl alpha))

  -- A moving average of shares is a share.
  pub ewma-IsShare :
      (alpha a b : Carrier)
      → IsShare n alpha
      → IsShare n a
      → IsShare n b
      → IsShare n (ewma n alpha a b)
  ewma-IsShare alpha a b h p q =
      let rest = sub unit alpha in
      let kept = rest_nonneg alpha h.1 in
      let low =
        laws.add_mono _ _ _ _ (laws.mul_mono alpha nought a h.0 p.0)
          (laws.mul_mono rest nought b kept q.0) in
      let high =
        laws.add_mono _ _ _ _ (laws.mul_mono alpha a unit h.0 p.1)
          (laws.mul_mono rest b unit kept q.1) in
      (
        rw (laws.mul-nought alpha, laws.mul-nought rest, laws.add-nought) at low,
        rw (laws.mul-unit alpha, laws.mul-unit rest, laws.share alpha h.0 h.1) at high,
      )

  clamp-IsShare : (x : Carrier) → IsShare n (max n nought (min n unit x))
  clamp-IsShare x = ground (
    arith,
    leb_refl nought,
    leb_refl unit,
    laws.nought-le-unit,
    laws.total unit x,
    laws.total nought x,
  )

  -- A score lies between 0 and 1, whatever the weights and the signals are.
  pub score_bounds :
      (w : Weights Carrier) (s : AdapterScorer Carrier) (provider : Text)
      → IsShare n (calculate_score n s provider w)
  unfolding calculate_score
  score_bounds w s provider = clamp-IsShare _

  availability-IsShare : (state : CircuitState) → IsShare n (availability_of n state)
  availability-IsShare closed = (laws.nought-le-unit, leb_refl unit)
  availability-IsShare half_open = (laws.nought-le-half, laws.half-le-unit)
  availability-IsShare opened = (leb_refl nought, laws.nought-le-unit)

  sample-IsShare : (b : Bool) → IsShare n (if b then unit else nought)
  sample-IsShare true = (laws.nought-le-unit, leb_refl unit)
  sample-IsShare false = (leb_refl nought, laws.nought-le-unit)

  put-IsValid :
      (s : AdapterScorer Carrier) (provider : Text) (h : HealthSignals Carrier)
      → IsValid n s
      → IsHealthy n h
      → IsValid n (record s { health_metrics = insert provider h s.health_metrics })
  unfolding get_health
  put-IsValid s provider h v healthy = record {
    alpha_share = v.alpha_share;
    healthy = λ q. elim (Bool-cases (provider == q)) [
      | inl e ↦ rw (lookup-insert, e) healthy
      | inr e ↦ rw (lookup-insert, e) (v.healthy q)
    ];
  }

  step-IsValid :
      (op : Op Carrier) (s : AdapterScorer Carrier) → IsValid n s → IsValid n (step n op s)
  unfolding step record_signal update_availability
  step-IsValid (record_op provider latency is_error) s v = put-IsValid s provider _ v (
    (v.healthy provider).0,
    ewma-IsShare s.alpha _ _ v.alpha_share (sample-IsShare is_error) (v.healthy provider).1,
  )
  step-IsValid (update_op provider state) s v =
      put-IsValid s provider _ v (availability-IsShare state, (v.healthy provider).1)

  run-IsValid :
      (ops : List (Op Carrier)) (s : AdapterScorer Carrier) → IsValid n s → IsValid n (run n ops s)
  unfolding run
  run-IsValid [] s v = v
  run-IsValid (op ∷ ops) s v = run-IsValid ops (step n op s) (step-IsValid op s v)

  new-IsValid : (alpha : Carrier) → IsShare n alpha → IsValid n (new n (some alpha))
  unfolding new get_health lookup
  new-IsValid alpha h = record {
    alpha_share = h;
    healthy = λ q. ((laws.nought-le-unit, leb_refl unit), (leb_refl nought, laws.nought-le-unit));
  }

  -- With a smoothing factor between 0 and 1, after any signals and changes of circuits, the
  -- availability and the error rate of every provider lie between 0 and 1.
  pub signals_bounds :
      (alpha : Carrier) (ops : List (Op Carrier)) (provider : Text)
      → IsShare n alpha
      → IsHealthy n (get_health n (run n ops (new n (some alpha))) provider)
  signals_bounds alpha ops provider h =
      (run-IsValid ops (new n (some alpha)) (new-IsValid alpha h)).healthy provider
