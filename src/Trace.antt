-- ===== src/Trace.antt =====
-- packages/sdk/src/trace.ts: `ExecutionTraceBuilder`. A method takes a reading of the two clocks and
-- the object, and returns the new object; `end` may throw. Times are whole milliseconds of
-- `performance.now()` and of the wall clock. The values of metadata are of any type. `toJSON` is
-- modelled in Json.
pub mod Steps
pub mod Summary
pub mod Retry
pub mod Json
pub mod Tests
use infrgate.Prelude.{
  ℕ, ◌+◌, ◌≡◌, Bool, true, false, not, ◌&&◌, Option, none, some, List, [], ◌∷◌, ◌++◌, map, filter,
  last, nat_eq, nat_eq_iff, ◌↔◌, arith, if◌then◌else◌,
}
use infrgate.Prelude.Int.{ℤ, pos, sub_ℕ, ◌+ℤ◌, ◌-ℤ◌}
use infrgate.Prelude.Text.{Text, codes}
use infrgate.Prelude.Eq.{Eq, ◌==◌, List-eq}
use infrgate.Prelude.Dict.{Dict, lookup, insert, erase, spread}
use infrgate.Prelude.Error.{Error, Result, ok, throw}

pub data TraceStep : Type 0 where
  auth rate_limit idempotency policy routing execution finalize : TraceStep

abbrev pub index : TraceStep → ℕ
index auth = 0
index rate_limit = 1
index idempotency = 2
index policy = 3
index routing = 4
index execution = 5
index finalize = 6

pub step_eq_iff : (a b : TraceStep) → (nat_eq (index a) (index b) ≡ true) ↔ (a ≡ b)
step_eq_iff a b = ground arith

instance abbrev pub Step-eq : Eq TraceStep
Step-eq = record { beq = λ a b. nat_eq (index a) (index b); beq_iff = step_eq_iff }

-- the values of the enumeration
abbrev pub step_text : TraceStep → Text
step_text auth = codes "auth"
step_text rate_limit = codes "rate_limit"
step_text idempotency = codes "idempotency"
step_text policy = codes "policy"
step_text routing = codes "routing"
step_text execution = codes "execution"
step_text finalize = codes "finalize"

pub data TraceStepStatus : Type 0 where
  passed failed waiting skipped : TraceStepStatus

pub record ErrorInfo : Type 0 where
  pub kind : Text
  pub message : Text

-- a reading of `performance.now()` and of the wall clock
pub record Reading : Type 0 where
  pub performance : ℕ
  pub date : ℕ

abbrev pub Metadata : Type 0 → Type 0
Metadata V = Dict Text V

-- The last field tells the two literals apart that an event begins as, whose keys stand in another order.
pub record TraceEvent (V : Type 0) : Type 0 where
  pub step : TraceStep
  pub timestamp : ℕ
  pub duration_ms : Option ℤ
  pub metadata : Option (Metadata V)
  pub error : Option ErrorInfo
  pub pushed_by_error : Bool

pub record TraceStepSummary (V : Type 0) : Type 0 where
  pub step : TraceStep
  pub status : TraceStepStatus
  pub duration_ms : Option ℤ
  pub metadata : Option (Metadata V)

pub record ExecutionTraceBuilder (V : Type 0) : Type 0 where
  pub request_id : Text
  pub events : List (TraceEvent V)
  pub step_start_times : Dict TraceStep ℕ

abbrev pub is_some {ℓ} : {A : Type ℓ} → Option A → Bool
is_some none = false
is_some (some a) = true

-- `error.name || 'Error'`
abbrev pub error_type : Text → Text
error_type [] = codes "Error"
error_type (c ∷ name) = c ∷ name

abbrev pub error_info : Error → ErrorInfo
error_info e = record { kind = error_type e.name; message = e.message }

-- new Error(`Step ${step} was never started`)
never_started : TraceStep → Error
never_started step = record {
  name = codes "Error";
  message = codes "Step " ++ (step_text step ++ codes " was never started");
}

pub elapsed : Option ℕ → ℕ → Option ℤ
elapsed none now = none
elapsed (some t) now = some (sub_ℕ now t)

abbrev or_zero : Option ℤ → ℤ
or_zero none = pos 0
or_zero (some d) = d

module _ {V : Type 0} where
  unfoldable pub new : Text → ExecutionTraceBuilder V
  new id = record { request_id = id; events = []; step_start_times = [] }

  -- `if (metadata) startEvent.metadata = { ...startEvent.metadata, ...metadata }`
  unfoldable pub merge : Option (Metadata V) → Option (Metadata V) → Option (Metadata V)
  unfolding spread
  merge old none = old
  merge none (some more) = some (spread [] more)
  merge (some old) (some more) = some (spread old more)

  -- `find` and the change of the event that it finds; `none` where it finds none
  unfoldable pub update_first :
      (TraceEvent V → Bool)
      → (TraceEvent V → TraceEvent V)
      → List (TraceEvent V)
      → Option (List (TraceEvent V))
  update_first p f [] = none
  update_first p f (e ∷ es) = elim (p e) [
    | true ↦ some (f e ∷ es)
    | false ↦ elim (update_first p f es) [ none ↦ none | some es' ↦ some (e ∷ es') ]
  ]

  unfoldable pub start :
      TraceStep → Option (Metadata V) → Reading → ExecutionTraceBuilder V → ExecutionTraceBuilder V
  start step metadata now b = record b {
    step_start_times = insert step now.performance b.step_start_times;
    events =
        b.events
        ++ (record {
          step = step;
          timestamp = now.date;
          duration_ms = none;
          metadata = metadata;
          error = none;
          pushed_by_error = false;
        })
          ∷ [];
  }

  abbrev pub is_open : TraceStep → TraceEvent V → Bool
  is_open step e = e.step == step && not (is_some e.duration_ms)

  abbrev pub is_faultless : TraceStep → TraceEvent V → Bool
  is_faultless step e = e.step == step && not (is_some e.error)

  abbrev complete : ℤ → Option (Metadata V) → TraceEvent V → TraceEvent V
  complete duration metadata e = record e {
    duration_ms = some duration;
    metadata = merge e.metadata metadata;
  }

  abbrev blame : Option ℤ → Error → Option (Metadata V) → TraceEvent V → TraceEvent V
  blame duration error metadata e = record e {
    duration_ms = duration;
    error = some (error_info error);
    metadata = merge e.metadata metadata;
  }

  abbrev or_same : Option (List (TraceEvent V)) → List (TraceEvent V) → List (TraceEvent V)
  or_same none es = es
  or_same (some es') es = es'

  -- the step is taken off the running ones, and the event of its start gets the duration
  unfoldable pub complete_step :
      ℤ → TraceStep → Option (Metadata V) → ExecutionTraceBuilder V → ExecutionTraceBuilder V
  complete_step duration step metadata b = record b {
    step_start_times = erase step b.step_start_times;
    events = or_same (update_first (is_open step) (complete duration metadata) b.events) b.events;
  }

  -- `end`, by the start time of the step
  unfoldable pub end_at :
      Option ℕ
      → TraceStep
      → Option (Metadata V)
      → Reading
      → ExecutionTraceBuilder V
      → Result (ExecutionTraceBuilder V)
  unfolding never_started complete_step
  end_at none step metadata now b = throw (never_started step)
  end_at (some t) step metadata now b = ok (complete_step (sub_ℕ now.performance t) step metadata b)

  unfoldable pub end :
      TraceStep
      → Option (Metadata V)
      → Reading
      → ExecutionTraceBuilder V
      → Result (ExecutionTraceBuilder V)
  unfolding end_at
  end step metadata now b = end_at (lookup step b.step_start_times) step metadata now b

  -- what `error` makes of the events: the one found is blamed, or a new one is pushed
  unfoldable pub record_error :
      Option ℤ
      → TraceStep
      → Error
      → Option (Metadata V)
      → ℕ
      → List (TraceEvent V)
      → List (TraceEvent V)
  record_error duration step error metadata date events =
      elim (update_first (is_faultless step) (blame duration error metadata) events) [
        | some events' ↦ events'
        | none ↦
            events
            ++ (record {
              step = step;
              timestamp = date;
              duration_ms = duration;
              metadata = metadata;
              error = some (error_info error);
              pushed_by_error = true;
            })
              ∷ []
      ]

  unfoldable pub fail :
      TraceStep
      → Error
      → Option (Metadata V)
      → Reading
      → ExecutionTraceBuilder V
      → ExecutionTraceBuilder V
  unfolding record_error elapsed
  fail step error metadata now b =
      let duration = elapsed (lookup step b.step_start_times) now.performance in
      record b {
        step_start_times = erase step b.step_start_times;
        events = record_error duration step error metadata now.date b.events;
      }

  -- `getEvents`
  unfoldable pub get_events : ExecutionTraceBuilder V → List (TraceEvent V)
  get_events b = b.events

  unfoldable pub status : Dict TraceStep ℕ → TraceEvent V → TraceStepStatus
  status starts e =
      if is_some e.error
      then failed
      else if is_some e.duration_ms
      then passed
      else if is_some (lookup e.step starts)
      then waiting
      else skipped

  unfoldable pub to_summary : ExecutionTraceBuilder V → List (TraceStepSummary V)
  unfolding status
  to_summary b =
      map
        (λ e. record {
          step = e.step;
          status = status b.step_start_times e;
          duration_ms = e.duration_ms;
          metadata = e.metadata;
        })
        b.events

  -- `getTotalDurationMs`, from the first event and the last completed one
  unfoldable pub total : List (TraceEvent V) → Option (TraceEvent V) → ℤ
  total [] completed = pos 0
  total (first ∷ rest) none = pos 0
  total (first ∷ rest) (some e) = pos e.timestamp +ℤ or_zero e.duration_ms -ℤ pos first.timestamp

  unfoldable pub get_total_duration_ms : ExecutionTraceBuilder V → ℤ
  unfolding total
  get_total_duration_ms b = total b.events (last (filter (λ e. is_some e.duration_ms) b.events))
