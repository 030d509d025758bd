-- ===== src/CircuitBreaker.antt =====
-- packages/sdk/src/circuit-breaker.ts: `ProviderCircuitBreaker`. A method takes the clock's reading,
-- in whole milliseconds, and the object, and returns its result beside the new object; a synchronous
-- method reads the clock once. `execute` waits for its function, and other calls may run meanwhile:
-- it is `enter`, the wait, and `leave`. `AdapterScorer` of the same file is modelled in Scorer.
pub mod Lifecycle
pub mod Machine
pub mod Recovery
pub mod Window
pub mod Probes
pub mod Tests
use infrgate.Prelude.{
  ℕ, zero, suc, ◌+◌, Bool, true, false, Option, none, some, List, [], ◌∷◌, ◌++◌, filter, last,
  length, leb, nat_eq, if◌then◌else◌,
}
use infrgate.Prelude.Int.{ℤ, pos, ◌+ℤ◌, ◌-ℤ◌, leb_ℤ}
use infrgate.Prelude.Text.{Text}

-- `OPEN` is `opened`, as `open` is a word of the language here.
pub data CircuitState : Type 0 where
  closed opened half_open : CircuitState

abbrev pub is_closed : CircuitState → Bool
is_closed closed = true
is_closed _ = false

abbrev pub is_opened : CircuitState → Bool
is_opened opened = true
is_opened _ = false

abbrev pub is_half_open : CircuitState → Bool
is_half_open half_open = true
is_half_open _ = false

pub record CircuitBreakerConfig : Type 0 where
  pub failure_threshold : ℕ
  pub failure_window_ms : ℕ
  pub recovery_timeout_ms : ℕ
  pub success_threshold : ℕ
  pub half_open_max_requests : ℕ

-- Partial<CircuitBreakerConfig>
pub record PartialConfig : Type 0 where
  pub failure_threshold : Option ℕ
  pub failure_window_ms : Option ℕ
  pub recovery_timeout_ms : Option ℕ
  pub success_threshold : Option ℕ
  pub half_open_max_requests : Option ℕ

pub record CircuitStatus : Type 0 where
  pub state : CircuitState
  pub failure_count : ℕ
  pub last_failure_at : Option ℕ
  pub opened_at : Option ℕ
  pub half_open_success_count : Option ℕ

pub record FailureWindow : Type 0 where
  pub timestamp : ℕ
  pub error : Text

-- `half_open_count` is signed: nothing in the code holds its decrements to its increments.
pub record ProviderCircuitBreaker : Type 0 where
  pub provider_name : Text
  pub state : CircuitState
  pub failures : List FailureWindow
  pub half_open_count : ℤ
  pub opened_at : Option ℕ
  pub half_open_success_count : ℕ
  pub config : CircuitBreakerConfig

abbrev or_else : Option ℕ → ℕ → ℕ
or_else none d = d
or_else (some n) d = n

-- the constructor: the defaults, overridden by what is given
unfoldable pub new : Text → PartialConfig → ProviderCircuitBreaker
new name c = record {
  provider_name = name;
  state = closed;
  failures = [];
  half_open_count = pos 0;
  opened_at = none;
  half_open_success_count = 0;
  config = record {
    failure_threshold = or_else c.failure_threshold 5;
    failure_window_ms = or_else c.failure_window_ms 60000;
    recovery_timeout_ms = or_else c.recovery_timeout_ms 30000;
    success_threshold = or_else c.success_threshold 2;
    half_open_max_requests = or_else c.half_open_max_requests 3;
  };
}

-- `transition`, by the new state
unfoldable pub transition : CircuitState → ℕ → ProviderCircuitBreaker → ProviderCircuitBreaker
transition opened now b = record b {
  state = opened;
  opened_at = some now;
  half_open_success_count = 0;
}
transition half_open now b = record b {
  state = half_open;
  half_open_success_count = 0;
  half_open_count = pos 0;
}
transition closed now b = record b {
  state = closed;
  failures = [];
  opened_at = none;
  half_open_success_count = 0;
}

-- `if (!this.openedAt) return false` is taken at 0 too
unfoldable pub recovered : CircuitBreakerConfig → Option ℕ → ℕ → Bool
recovered c none now = false
recovered c (some t) now = if nat_eq t 0 then false else leb (t + c.recovery_timeout_ms) now

unfoldable pub can_attempt_half_open : ℕ → ProviderCircuitBreaker → Bool
unfolding recovered
can_attempt_half_open now b = recovered b.config b.opened_at now

-- `getState`: the object it leaves; what it returns is that object's state
unfoldable pub get_state : ℕ → ProviderCircuitBreaker → ProviderCircuitBreaker
unfolding transition can_attempt_half_open
get_state now b =
    if is_opened b.state
    then (if can_attempt_half_open now b then transition half_open now b else b)
    else b

-- `f.timestamp >= now - failureWindowMs`, with the difference carried over
abbrev pub in_window : CircuitBreakerConfig → ℕ → FailureWindow → Bool
in_window c now f = leb now (f.timestamp + c.failure_window_ms)

unfoldable pub get_recent_failures : ℕ → ProviderCircuitBreaker → ProviderCircuitBreaker
get_recent_failures now b = record b { failures = filter (in_window b.config now) b.failures }

-- `shouldOpen`, at the object that `getRecentFailures` leaves
unfoldable pub should_open : ProviderCircuitBreaker → Bool
should_open b = leb b.config.failure_threshold (length b.failures)

unfoldable pub record_success : ℕ → ProviderCircuitBreaker → ProviderCircuitBreaker
unfolding transition
record_success now b =
    let counted = record b { half_open_success_count = suc b.half_open_success_count } in
    if is_half_open b.state
    then (if leb b.config.success_threshold counted.half_open_success_count
        then transition closed now counted
        else counted)
    else b

-- `recordFailure` after the push, by the state
unfoldable pub on_failure : CircuitState → ℕ → ProviderCircuitBreaker → ProviderCircuitBreaker
unfolding transition get_recent_failures should_open
on_failure half_open now b = transition opened now b
on_failure closed now b =
    let recent = get_recent_failures now b in
    if should_open recent then transition opened now recent else recent
on_failure opened now b = b

unfoldable pub record_failure : ℕ → Text → ProviderCircuitBreaker → ProviderCircuitBreaker
unfolding on_failure
record_failure now message b =
    on_failure b.state now
      (record b { failures = b.failures ++ (record { timestamp = now; error = message }) ∷ [] })

abbrev truthy : Option ℕ → Option ℕ
truthy none = none
truthy (some t) = if nat_eq t 0 then none else some t

unfoldable pub get_status : ℕ → ProviderCircuitBreaker → CircuitStatus × ProviderCircuitBreaker
unfolding get_state get_recent_failures
get_status now b =
    let b' = get_recent_failures now (get_state now b) in
    (
      record {
        state = b'.state;
        failure_count = length b'.failures;
        last_failure_at = elim (last b'.failures) [ none ↦ none | some f ↦ some f.timestamp ];
        opened_at = truthy b'.opened_at;
        half_open_success_count =
            if is_half_open b'.state then some b'.half_open_success_count else none;
      },
      b',
    )

unfoldable pub reset : ProviderCircuitBreaker → ProviderCircuitBreaker
reset b = record b {
  state = closed;
  failures = [];
  half_open_count = pos 0;
  opened_at = none;
  half_open_success_count = 0;
}

-- What `execute` throws of its own: `CircuitOpenError`, or the `RangeError` of `toISOString` in the
-- error's constructor, where `openedAt` is not set.
pub data Rejection : Type 0 where
  circuit_open_error : Text → ℕ → Rejection
  range_error : Rejection

unfoldable pub reject : ProviderCircuitBreaker → Rejection
reject b = elim b.opened_at [
  | none ↦ range_error
  | some t ↦ circuit_open_error b.provider_name (t + b.config.recovery_timeout_ms)
]

-- A call that was let in keeps `currentState === HALF_OPEN` for its `finally`.
pub data Admission : Type 0 where
  rejected : Rejection → Admission
  admitted : Bool → Admission

-- `execute` up to the call of the function, at the object that `getState` leaves
unfoldable pub admit : CircuitState → ProviderCircuitBreaker → Admission × ProviderCircuitBreaker
unfolding reject
admit opened b = (rejected (reject b), b)
admit half_open b =
    if leb_ℤ (pos b.config.half_open_max_requests) b.half_open_count
    then (rejected (reject b), b)
    else (admitted true, record b { half_open_count = b.half_open_count +ℤ pos 1 })
admit closed b = (admitted false, b)

unfoldable pub enter : ℕ → ProviderCircuitBreaker → Admission × ProviderCircuitBreaker
unfolding get_state admit
enter now b = let b' = get_state now b in admit b'.state b'

-- what the function's promise comes to
pub data Outcome (T : Type 0) : Type 0 where
  resolved : T → Outcome T
  failed : Text → Outcome T

unfoldable pub settle :
    {T : Type 0} → ℕ → Outcome T → ProviderCircuitBreaker → ProviderCircuitBreaker
unfolding record_success record_failure
settle now (resolved t) b = record_success now b
settle now (failed message) b = record_failure now message b

-- `execute` from the function's end on, the `finally` included
unfoldable pub leave :
    {T : Type 0} → ℕ → Bool → Outcome T → ProviderCircuitBreaker → ProviderCircuitBreaker
unfolding settle
leave now probe outcome b =
    let b' = settle now outcome b in
    if probe then record b' { half_open_count = b'.half_open_count -ℤ pos 1 } else b'

pub data Execution (T : Type 0) : Type 0 where
  refused : Rejection → Execution T
  returned : Outcome T → Execution T

-- `execute`: `fn` gives its outcome, the time at its end, and what other calls made of the breaker
-- in the meantime.
unfoldable pub execute :
    {T : Type 0}
    → ℕ
    → (ProviderCircuitBreaker → Outcome T × ℕ × ProviderCircuitBreaker)
    → ProviderCircuitBreaker
    → Execution T × ProviderCircuitBreaker
unfolding enter leave
execute now fn b =
    let (admission, b') = enter now b in
    elim admission [
      | rejected r ↦ (refused r, b')
      | admitted probe ↦
          let (outcome, later, b'') = fn b' in (returned outcome, leave later probe outcome b'')
    ]
