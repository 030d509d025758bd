-- ===== src/CircuitBreaker/Machine.antt =====
-- The breaker as a state machine: where each operation leads.
use infrgate.Prelude.{
  ℕ, suc, ◌+◌, ◌≡◌, refl, ◌&&◌, ◌++◌, filter, leb, ltb, if◌then◌else◌, Bool, true, false, Option,
  none, some, List, [], ◌∷◌, length, arith,
}
use infrgate.Prelude.Int.{◌+ℤ◌}
use infrgate.Prelude.Text.{Text}
use infrgate.CircuitBreaker.{
  CircuitState, closed, opened, half_open, in_window, CircuitBreakerConfig, FailureWindow,
  ProviderCircuitBreaker, get_state, record_success, record_failure, get_status,
  get_recent_failures, reset, enter, settle, leave, resolved, failed,
}
use infrgate.CircuitBreaker.Lifecycle.{
  Op, read_state, read_status, start, finish, succeed, fail, clear, step,
}

-- What an operation is to the state machine: a look at the state, the end of a call, or a reset. A call
-- that starts looks at the state first.
pub data Happening : Type 0 where
  look : ℕ → Happening
  success : Happening
  failure : ℕ → Happening
  cleared : Happening

abbrev pub happening : Op → Happening
happening (read_state now) = look now
happening (read_status now) = look now
happening (start now) = look now
happening (finish now probe (resolved t)) = success
happening (finish now probe (failed m)) = failure now
happening (succeed now) = success
happening (fail now m) = failure now
happening clear = cleared

-- whether a time has passed since a circuit opened, which is not known at 0
abbrev pub has_passed : ℕ → Option ℕ → ℕ → Bool
has_passed timeout none now = false
has_passed timeout (some t) now = ltb 0 t && leb (t + timeout) now

-- the number of failures that a window before a reading of the clock still holds
abbrev pub recent : ℕ → ℕ → List FailureWindow → ℕ
recent window now [] = 0
recent window now (f ∷ fs) =
    let others = recent window now fs in
    if leb now (f.timestamp + window) then suc others else others

-- the documented machine: the state that a circuit goes to
abbrev pub edge : Happening → CircuitState → ProviderCircuitBreaker → CircuitState
edge cleared _ b = closed
edge (look now) opened b =
    if has_passed b.config.recovery_timeout_ms b.opened_at now then half_open else opened
edge (look now) state b = state
edge success half_open b =
    if leb b.config.success_threshold (suc b.half_open_success_count) then closed else half_open
edge success state b = state
edge (failure now) closed b =
    if leb b.config.failure_threshold (suc (recent b.config.failure_window_ms now b.failures))
    then opened
    else closed
edge (failure now) _ b = opened

length-filter-recent :
    (c : CircuitBreakerConfig) (now : ℕ) (m : Text) (fs : List FailureWindow)
    → length (filter (in_window c now) (fs ++ (record { timestamp = now; error = m }) ∷ []))
      ≡ suc (recent c.failure_window_ms now fs)
length-filter-recent c now m [] = ground arith
length-filter-recent c now m (f ∷ fs) = ground (arith, length-filter-recent c now m fs)

get_state-edge :
    (now : ℕ) (b : ProviderCircuitBreaker) → (get_state now b).state ≡ edge (look now) b.state b
unfolding get_state
get_state-edge now b = ground arith

enter-edge :
    (now : ℕ) (b : ProviderCircuitBreaker) → (enter now b).1.state ≡ edge (look now) b.state b
unfolding enter ◌+ℤ◌
enter-edge now b = ground (arith, get_state-edge now b)

record_failure-edge :
    (now : ℕ) (m : Text) (b : ProviderCircuitBreaker)
    → (record_failure now m b).state ≡ edge (failure now) b.state b
unfolding record_failure
record_failure-edge now m b = ground (arith, length-filter-recent b.config now m b.failures)

record_success-edge :
    (now : ℕ) (b : ProviderCircuitBreaker) → (record_success now b).state ≡ edge success b.state b
unfolding record_success
record_success-edge now b = ground arith

-- Each operation takes a circuit to the state that the documented machine gives. A look half-opens an
-- open circuit once the recovery timeout has passed since a time above 0. A success closes a half-open one
-- where the threshold of successes is reached. A failure opens a half-open one, and a closed one where,
-- with this failure, the window holds as many as the threshold. A reset closes any. Else no state changes.
pub step-edge :
    (op : Op) (b : ProviderCircuitBreaker) → (step op b).state ≡ edge (happening op) b.state b
unfolding step
step-edge (read_state now) b = get_state-edge now b
step-edge (read_status now) b = unfold get_status get_recent_failures in get_state-edge now b
step-edge (start now) b = enter-edge now b
step-edge (finish now true (resolved t)) b = unfold leave settle in record_success-edge now b
step-edge (finish now false (resolved t)) b = unfold leave settle in record_success-edge now b
step-edge (finish now true (failed m)) b = unfold leave settle in record_failure-edge now m b
step-edge (finish now false (failed m)) b = unfold leave settle in record_failure-edge now m b
step-edge (succeed now) b = record_success-edge now b
step-edge (fail now m) b = record_failure-edge now m b
step-edge clear b = unfold reset in refl
