-- ===== src/CircuitBreaker/Probes.antt =====
-- How many calls a half-open circuit lets in at once.
use Prim.Native.Nat.{min}
use infrgate.Prelude.{ℕ, zero, suc, ◌+◌, ◌≤◌, ◌<◌, ◌≡◌, ap, true, List, [], ◌∷◌, length, arith}
use infrgate.Prelude.Int.{pos, negsuc, pos_part, neg_part, ◌+ℤ◌, ◌-ℤ◌, ◌≤ℤ◌}
use infrgate.Prelude.Text.{Text}
use infrgate.CircuitBreaker.{
  half_open, ProviderCircuitBreaker, enter, Admission, rejected, admitted, resolved,
}
use infrgate.CircuitBreaker.Lifecycle.{read_state, finish, fail, step, run}

abbrev pub is_admitted : Admission → ℕ
is_admitted (rejected r) = 0
is_admitted (admitted p) = 1

-- the calls that are let in, when calls start in turn and none of them ends
unfoldable pub admits : List ℕ → ProviderCircuitBreaker → ℕ
admits [] b = 0
admits (now ∷ times) b = is_admitted (enter now b).0 + admits times (enter now b).1

enter_full :
    (now : ℕ) (b : ProviderCircuitBreaker)
    → b.state ≡ half_open
    → pos b.config.half_open_max_requests ≤ℤ b.half_open_count
    → (is_admitted (enter now b).0 ≡ 0) × ((enter now b).1 ≡ b)
unfolding enter
enter_full now b s h = ground arith

enter_free :
    (now : ℕ) (b : ProviderCircuitBreaker) (free : ℕ)
    → b.state ≡ half_open
    → pos_part b.half_open_count + suc free
      ≡ b.config.half_open_max_requests + neg_part b.half_open_count
    → let b' = (enter now b).1 in
      (is_admitted (enter now b).0 ≡ 1)
      × (b'.state ≡ half_open)
      × (pos_part b'.half_open_count + free
          ≡ b'.config.half_open_max_requests + neg_part b'.half_open_count)
unfolding enter ◌+ℤ◌
enter_free now b free s h = ground arith

admits-eq-min :
    (times : List ℕ) (b : ProviderCircuitBreaker) (free : ℕ)
    → b.state ≡ half_open
    → pos_part b.half_open_count + free
      ≡ b.config.half_open_max_requests + neg_part b.half_open_count
    → admits times b ≡ min (length times) free
unfolding admits
admits-eq-min [] b free s h = omega arith
admits-eq-min (now ∷ times) b zero s h =
    let (z, same) = enter_full now b s (omega arith) in
    rw (z, same) (omega (arith, admits-eq-min times b zero s h))
admits-eq-min (now ∷ times) b (suc free) s h =
    let (one, s', h') = enter_free now b free s h in
    omega (arith, one, admits-eq-min times (enter now b).1 free s' h')

-- A circuit that has just become half open lets in as many calls at once as it is configured for.
pub admits_fresh :
    (times : List ℕ) (b : ProviderCircuitBreaker)
    → b.state ≡ half_open
    → b.half_open_count ≡ pos 0
    → admits times b ≡ min (length times) b.config.half_open_max_requests
admits_fresh times b s e =
    admits-eq-min times b b.config.half_open_max_requests s
      (omega (arith, ap pos_part e, ap neg_part e))

stale_count :
    (b : ProviderCircuitBreaker) (failed_at read_at ended_at : ℕ) (message : Text)
    → b.state ≡ half_open
    → 0 < failed_at
    → failed_at + b.config.recovery_timeout_ms ≤ read_at
    → 1 < b.config.success_threshold
    → let b' =
        run
          (fail failed_at message ∷ read_state read_at ∷ finish ended_at true (resolved tt) ∷ [])
          b in
      (b'.state ≡ half_open)
      × (b'.half_open_count ≡ negsuc 0)
      × (b'.config.half_open_max_requests ≡ b.config.half_open_max_requests)
unfolding run step ◌-ℤ◌
stale_count b failed_at read_at ended_at message s p q r = ground arith

-- A probe that outlives its half-open period breaks the limit. A half-open circuit fails, is half
-- open again after the recovery timeout, and then a probe of the first period succeeds, where one
-- success does not close the circuit: from there one call more than is configured for is let in.
pub stale_probe_overruns :
    (times : List ℕ) (b : ProviderCircuitBreaker) (failed_at read_at ended_at : ℕ) (message : Text)
    → b.state ≡ half_open
    → 0 < failed_at
    → failed_at + b.config.recovery_timeout_ms ≤ read_at
    → 1 < b.config.success_threshold
    → admits times (
        run
          (fail failed_at message ∷ read_state read_at ∷ finish ended_at true (resolved tt) ∷ [])
          b)
      ≡ min (length times) (suc b.config.half_open_max_requests)
stale_probe_overruns times b failed_at read_at ended_at message s p q r =
    let (s', count, limit) = stale_count b failed_at read_at ended_at message s p q r in
    admits-eq-min times _ (suc b.config.half_open_max_requests) s'
      (omega (arith, limit, ap pos_part count, ap neg_part count))
