-- ===== src/CircuitBreaker/Recovery.antt =====
-- How long an open circuit stays open, and how it closes again.
use infrgate.Prelude.{
  ℕ, suc, ◌+◌, ◌≤◌, ◌<◌, ◌≡◌, refl, inl, inr, true, some, List, [], ◌∷◌, All, map, Bool-cases,
  leb→le, leb→lt, ◌∙◌, sym, length, arith, leb, if◌then◌else◌,
}
use infrgate.Prelude.Int.{pos, ◌+ℤ◌}
use infrgate.Prelude.Text.{Text}
use infrgate.CircuitBreaker.{
  closed, opened, half_open, ProviderCircuitBreaker, record_failure, enter, circuit_open_error,
  rejected, admitted, resolved, failed,
}
use infrgate.CircuitBreaker.Lifecycle.{
  Op, read_state, read_status, start, finish, succeed, fail, clear, step, run,
}

-- the reading of an operation lies before a time, and the operation is no reset
abbrev pub Before : ℕ → Op → Type 0
Before t (read_state now) = now < t
Before t (read_status now) = now < t
Before t (start now) = now < t
Before t (finish now p o) = now < t
Before t (succeed now) = now < t
Before t (fail now m) = now < t
Before t clear = ⊥

stays_open_step :
    (op : Op) (b : ProviderCircuitBreaker) (t : ℕ)
    → b.state ≡ opened
    → b.opened_at ≡ some t
    → Before (t + b.config.recovery_timeout_ms) op
    → ((step op b).state ≡ opened)
      × ((step op b).opened_at ≡ some t)
      × ((step op b).config ≡ b.config)
      × ((step op b).provider_name ≡ b.provider_name)
unfolding step
stays_open_step (finish now p (resolved u)) b t s o h = ground arith
stays_open_step (finish now p (failed m)) b t s o h = ground arith
stays_open_step _ b t s o h = ground arith

fails_fast_until :
    (ops : List Op) (b : ProviderCircuitBreaker) (t until now : ℕ) (name : Text)
    → b.state ≡ opened
    → b.opened_at ≡ some t
    → until ≡ t + b.config.recovery_timeout_ms
    → name ≡ b.provider_name
    → All (Before until) ops
    → now < until
    → ((run ops b).state ≡ opened)
      × ((enter now (run ops b)).0 ≡ rejected (circuit_open_error name until))
unfolding run
fails_fast_until [] b t until now name s o e n w h = unfold enter in ground arith
fails_fast_until (op ∷ ops) b t until now name s o e n w h =
    let (s', o', c, same) = stays_open_step op b t s o (rw e at w.0) in
    fails_fast_until ops (step op b) t until now name s' o' (rw c e) (n ∙ sym same) w.1 h

-- An open circuit fails fast: until the recovery timeout has passed since it opened, and whatever
-- calls come and end in the meantime, short of a reset, it stays open, and it rejects every call with
-- the time at which it will let one through.
pub fails_fast :
    (ops : List Op) (b : ProviderCircuitBreaker) (t now : ℕ)
    → b.state ≡ opened
    → b.opened_at ≡ some t
    → All (Before (t + b.config.recovery_timeout_ms)) ops
    → now < t + b.config.recovery_timeout_ms
    → ((run ops b).state ≡ opened)
      × ((enter now (run ops b)).0
          ≡ rejected (circuit_open_error b.provider_name (t + b.config.recovery_timeout_ms)))
fails_fast ops b t now s o w h = fails_fast_until ops b t _ now _ s o refl refl w h

-- Once the recovery timeout has passed since a time above 0, an open circuit that admits any probes
-- is half open to the next call, lets it in as the first probe, and counts successes anew.
pub recovers :
    (b : ProviderCircuitBreaker) (t now : ℕ)
    → b.state ≡ opened
    → b.opened_at ≡ some t
    → 0 < t
    → 0 < b.config.half_open_max_requests
    → t + b.config.recovery_timeout_ms ≤ now
    → ((enter now b).0 ≡ admitted true)
      × ((enter now b).1.state ≡ half_open)
      × ((enter now b).1.half_open_count ≡ pos 1)
      × ((enter now b).1.half_open_success_count ≡ 0)
unfolding enter ◌+ℤ◌
recovers b t now s o p m h = ground arith

closed_stays :
    (times : List ℕ) (b : ProviderCircuitBreaker)
    → b.state ≡ closed
    → (run (map succeed times) b).state ≡ closed
unfolding run step
closed_stays [] b s = s
closed_stays (now ∷ times) b s = closed_stays times (step (succeed now) b) (ground arith)

success_closes :
    (now : ℕ) (b : ProviderCircuitBreaker)
    → b.state ≡ half_open
    → b.config.success_threshold ≤ suc b.half_open_success_count
    → (step (succeed now) b).state ≡ closed
unfolding step
success_closes now b s h = ground arith

success_counts :
    (now : ℕ) (b : ProviderCircuitBreaker)
    → b.state ≡ half_open
    → suc b.half_open_success_count < b.config.success_threshold
    → step (succeed now) b ≡ record b { half_open_success_count = suc b.half_open_success_count }
unfolding step
success_counts now b s h = ground arith

-- The successes of a half-open circuit close it exactly when they reach the threshold.
pub closes_after :
    (times : List ℕ) (b : ProviderCircuitBreaker)
    → b.state ≡ half_open
    → b.half_open_success_count < b.config.success_threshold
    → (run (map succeed times) b).state ≡ (
        if leb b.config.success_threshold (b.half_open_success_count + length times)
        then closed
        else half_open)
unfolding run
closes_after [] b s h = ground arith
closes_after (now ∷ times) b s h =
    elim (Bool-cases (leb b.config.success_threshold (suc b.half_open_success_count))) [
      | inl e ↦
          let done =
            closed_stays times (step (succeed now) b) (success_closes now b s (leb→le _ _ e)) in
          ground (arith, done)
      | inr e ↦
          let more : suc b.half_open_success_count < b.config.success_threshold = leb→lt _ _ e in
          ground (
            arith,
            success_counts now b s more,
            closes_after times
                (record b { half_open_success_count = suc b.half_open_success_count }) s more,
          )
    ]

-- Any failure of a half-open circuit opens it again, from the time of the failure.
pub reopens :
    (b : ProviderCircuitBreaker) (now later : ℕ) (message : Text)
    → b.state ≡ half_open
    → now < later + b.config.recovery_timeout_ms
    → (enter now (record_failure later message b)).0
      ≡ rejected (circuit_open_error b.provider_name (later + b.config.recovery_timeout_ms))
unfolding enter record_failure
reopens b now later message s h = ground arith
