-- ===== src/Trace/Tests.antt =====
-- A run of a trace, and its theorems at concrete inputs.
use infrgate.Prelude.{ℕ, ◌≡◌, refl, false, none, some, List, [], ◌∷◌, map}
use infrgate.Trace.Retry.{retry_blames_first}
use infrgate.Prelude.Int.{sub_ℕ, pos, ◌+ℤ◌, ◌-ℤ◌}
use infrgate.Prelude.Text.{Text, codes}
use infrgate.Prelude.Dict.{lookup, insert, erase}
use infrgate.Prelude.Error.{Error}
use infrgate.Trace.{
  execution, rate_limit, failed, skipped, Step-eq, Reading, TraceEvent, ExecutionTraceBuilder,
  start, end, fail, status, complete_step, update_first, merge, new, to_summary,
  get_total_duration_ms,
}
use infrgate.Canonicalize.{Value, number}
use infrgate.Prelude.Decimal.{decimal}
use infrgate.Trace.Json.{to_json}
use infrgate.Trace.Summary.{
  Op, start_step, end_step, fail_step, apply, run, running_since, Completes, end-Completes,
}

abbrev request : Text
request = codes "req_1"

abbrev reading : ℕ → ℕ → Reading
reading p d = record { performance = p; date = d }

abbrev boom : Error
boom = record { name = codes "Error"; message = codes "boom" }

abbrev started : List (Op ℕ)
started =
    start_step rate_limit none (reading 10 1000) ∷ start_step execution none (reading 12 1002) ∷ []

abbrev ended : ExecutionTraceBuilder ℕ
ended = complete_step (pos 5) execution none (run started (new request))

end-Completes_example :
    (t : ℕ) × (running_since none execution started ≡ some t)
    × Completes execution (sub_ℕ 17 t) (run started (new {V = ℕ} request)).events ended.events
    × (lookup execution ended.step_start_times ≡ none)
unfolding run apply start end new lookup insert erase complete_step
end-Completes_example = end-Completes request started execution none (reading 17 1007) ended refl

duration_run : get_total_duration_ms ended ≡ pos 7
unfolding run apply start end new lookup insert erase complete_step get_total_duration_ms ◌+ℤ◌ ◌-ℤ◌
    update_first merge
duration_run = refl

-- The limit's step fails, and the other one has been ended before it is tried again.
abbrev tried : ExecutionTraceBuilder ℕ
tried = fail rate_limit boom none (reading 20 1010) ended

abbrev limited : TraceEvent ℕ
limited = record {
  step = rate_limit;
  timestamp = 1000;
  duration_ms = some (pos 10);
  metadata = none;
  error = some (record { kind = codes "Error"; message = codes "boom" });
  pushed_by_error = false;
}

abbrev executed : TraceEvent ℕ
executed = record {
  step = execution;
  timestamp = 1002;
  duration_ms = some (pos 5);
  metadata = none;
  error = none;
  pushed_by_error = false;
}

retry_blames_first_example :
    map
      (λ s. s.status)
      (to_summary
        (fail execution boom none (reading 30 1020) (start execution none (reading 21 1011) tried)))
    ≡ failed ∷ failed ∷ skipped ∷ []
unfolding run apply start end fail new lookup insert erase update_first merge complete_step status
retry_blames_first_example =
    retry_blames_first tried execution (limited ∷ []) executed [] none none boom (reading 21 1011)
      (reading 30 1020) refl (refl, tt) refl refl

abbrev failing : List (Op Value)
failing =
    fail_step rate_limit boom (some ((codes "n", number (codes "1")) ∷ [])) (reading 3 3)
    ∷ start_step execution none (reading 4 4)
    ∷ end_step execution none (reading 9 9)
    ∷ []

-- The event that `error` has pushed has its metadata last; the other one has none to show.
json_run :
    to_json (λ date. codes "T") (run failing (new request))
    ≡ codes
        "{\n  \"requestId\": \"req_1\",\n  \"events\": [\n    {\n      \"step\": \"rate_limit\",\n      \"timestamp\": \"T\",\n      \"error\": {\n        \"type\": \"Error\",\n        \"message\": \"boom\"\n      },\n      \"metadata\": {\n        \"n\": 1\n      }\n    },\n    {\n      \"step\": \"execution\",\n      \"timestamp\": \"T\",\n      \"durationMs\": 5\n    }\n  ],\n  \"totalDurationMs\": 6\n}"
unfolding to_json run apply start end fail new lookup insert erase update_first merge ◌+ℤ◌ ◌-ℤ◌
    decimal
json_run = refl
