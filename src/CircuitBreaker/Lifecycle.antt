-- ===== src/CircuitBreaker/Lifecycle.antt =====
-- The life of a breaker: the operations as events, and what holds between any two of them.
use infrgate.Prelude.{
  ℕ, ◌<◌, ◌≡◌, ◌≢◌, Bool, true, false, Option, none, some, List, [], ◌∷◌, length, length-filter,
  arith,
}
use infrgate.Prelude.Int.{pos, ◌+ℤ◌, ◌-ℤ◌, ◌≤ℤ◌}
use infrgate.Prelude.Text.{Text}
use infrgate.CircuitBreaker.{
  CircuitState, closed, opened, half_open, in_window, ProviderCircuitBreaker, PartialConfig, new,
  get_state, record_success, record_failure, get_status, get_recent_failures, reset, enter, settle,
  leave, range_error, rejected, Outcome, resolved, failed,
}

-- A call of a method, with the clock's reading; `finish` is the end of a call that was let in.
pub data Op : Type 0 where
  read_state : ℕ → Op
  read_status : ℕ → Op
  start : ℕ → Op
  finish : ℕ → Bool → Outcome (Unit {0}) → Op
  succeed : ℕ → Op
  fail : ℕ → Text → Op
  clear : Op

unfoldable pub step : Op → ProviderCircuitBreaker → ProviderCircuitBreaker
unfolding get_state get_status enter leave record_success record_failure reset
step (read_state now) b = get_state now b
step (read_status now) b = (get_status now b).1
step (start now) b = (enter now b).1
step (finish now probe outcome) b = leave now probe outcome b
step (succeed now) b = record_success now b
step (fail now message) b = record_failure now message b
step clear b = reset b

unfoldable pub run : List Op → ProviderCircuitBreaker → ProviderCircuitBreaker
run [] b = b
run (op ∷ ops) b = run ops (step op b)

abbrev pub is_set : Option ℕ → Bool
is_set none = false
is_set (some t) = true

-- What a state says of the other fields.
abbrev pub StateFits : CircuitState → ProviderCircuitBreaker → Type 0
StateFits closed b =
    (b.opened_at ≡ none)
    × (b.half_open_success_count ≡ 0)
    × (length b.failures < b.config.failure_threshold)
StateFits opened b = (is_set b.opened_at ≡ true) × (b.half_open_success_count ≡ 0)
StateFits half_open b =
    (is_set b.opened_at ≡ true) × (b.half_open_success_count < b.config.success_threshold)

pub record IsValid (b : ProviderCircuitBreaker) : Type 0 where
  pub trips : 0 < b.config.failure_threshold
  pub closes : 0 < b.config.success_threshold
  pub fits : StateFits b.state b
  pub probes : b.half_open_count ≤ℤ pos b.config.half_open_max_requests

get_state-IsValid : (now : ℕ) (b : ProviderCircuitBreaker) → IsValid b → IsValid (get_state now b)
unfolding get_state
get_state-IsValid now b v = ground arith

record_success-IsValid :
    (now : ℕ) (b : ProviderCircuitBreaker) → IsValid b → IsValid (record_success now b)
unfolding record_success
record_success-IsValid now b v = ground arith

record_failure-IsValid :
    (now : ℕ) (m : Text) (b : ProviderCircuitBreaker) → IsValid b → IsValid (record_failure now m b)
unfolding record_failure
record_failure-IsValid now m b v = ground arith

enter-IsValid : (now : ℕ) (b : ProviderCircuitBreaker) → IsValid b → IsValid (enter now b).1
unfolding enter ◌+ℤ◌
enter-IsValid now b v = ground arith

get_recent_failures-IsValid :
    (now : ℕ) (b : ProviderCircuitBreaker) → IsValid b → IsValid (get_recent_failures now b)
unfolding get_recent_failures
get_recent_failures-IsValid now b v =
    ground (arith, length-filter (in_window b.config now) b.failures)

get_status-IsValid :
    (now : ℕ) (b : ProviderCircuitBreaker) → IsValid b → IsValid (get_status now b).1
unfolding get_status
get_status-IsValid now b v =
    get_recent_failures-IsValid now (get_state now b) (get_state-IsValid now b v)

settle-IsValid :
    (now : ℕ) (o : Outcome (Unit {0})) (b : ProviderCircuitBreaker)
    → IsValid b
    → IsValid (settle now o b)
unfolding settle
settle-IsValid now (resolved t) b v = record_success-IsValid now b v
settle-IsValid now (failed m) b v = record_failure-IsValid now m b v

release-IsValid :
    (b : ProviderCircuitBreaker)
    → IsValid b
    → IsValid (record b { half_open_count = b.half_open_count -ℤ pos 1 })
unfolding ◌-ℤ◌
release-IsValid b v = ground arith

leave-IsValid :
    (now : ℕ) (probe : Bool) (o : Outcome (Unit {0})) (b : ProviderCircuitBreaker)
    → IsValid b
    → IsValid (leave now probe o b)
unfolding leave
leave-IsValid now true o b v = release-IsValid (settle now o b) (settle-IsValid now o b v)
leave-IsValid now false o b v = settle-IsValid now o b v

-- Every operation, at any reading of the clock, keeps the invariant.
pub step-IsValid : (op : Op) (b : ProviderCircuitBreaker) → IsValid b → IsValid (step op b)
unfolding step
step-IsValid (read_state now) b v = get_state-IsValid now b v
step-IsValid (read_status now) b v = get_status-IsValid now b v
step-IsValid (start now) b v = enter-IsValid now b v
step-IsValid (finish now probe o) b v = leave-IsValid now probe o b v
step-IsValid (succeed now) b v = record_success-IsValid now b v
step-IsValid (fail now m) b v = record_failure-IsValid now m b v
step-IsValid clear b v = ground arith

-- After any operations, in any order, a breaker made with thresholds above 0 is valid.
pub run-IsValid : (ops : List Op) (b : ProviderCircuitBreaker) → IsValid b → IsValid (run ops b)
unfolding run
run-IsValid [] b v = v
run-IsValid (op ∷ ops) b v = run-IsValid ops (step op b) (step-IsValid op b v)

enter-ne-range_error :
    (now : ℕ) (b : ProviderCircuitBreaker) → IsValid b → (enter now b).0 ≢ rejected range_error
unfolding enter
enter-ne-range_error now b v = ground arith

new-IsValid :
    (name : Text) (c : PartialConfig)
    → 0 < (new name c).config.failure_threshold
    → 0 < (new name c).config.success_threshold
    → IsValid (new name c)
unfolding new
new-IsValid name c p q = ground arith

-- A breaker made with thresholds above 0 never fails to make its `CircuitOpenError`: after any
-- operations, in any order, at any readings of the clock, a rejected call gets that error and no
-- `RangeError` of a time that is not set.
pub never_range_error :
    (name : Text) (c : PartialConfig) (ops : List Op) (now : ℕ)
    → 0 < (new name c).config.failure_threshold
    → 0 < (new name c).config.success_threshold
    → (enter now (run ops (new name c))).0 ≢ rejected range_error
never_range_error name c ops now p q =
    enter-ne-range_error now (run ops (new name c))
      (run-IsValid ops (new name c) (new-IsValid name c p q))
