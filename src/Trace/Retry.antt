-- ===== src/Trace/Retry.antt =====
-- A step that is tried again, and fails.
use infrgate.Prelude.{
  ◌≡◌, refl, ap, ◌∙◌, Bool, true, false, Option, none, some, List, [], ◌∷◌, ◌++◌, map, All, arith,
}
use mathlib.Core.List
use mathlib.Core.List.{append_assoc}
use infrgate.Prelude.Int.{ℤ}
use infrgate.Prelude.Eq.{==_refl}
use infrgate.Prelude.Dict.{Dict, lookup, erase, insert, lookup-erase}
use infrgate.Prelude.Error.{Error}
use infrgate.Prelude.{ℕ}
use infrgate.Trace.{
  TraceStep, Step-eq, TraceEvent, TraceStepStatus, failed, skipped, Metadata, Reading,
  ExecutionTraceBuilder, update_first, is_faultless, blame, start, fail, record_error, status,
  to_summary, elapsed,
}

module _ {V : Type 0} where
  update_first-found :
      (p : TraceEvent V → Bool) (f : TraceEvent V → TraceEvent V) (before : List (TraceEvent V))
      (e : TraceEvent V) (after : List (TraceEvent V))
      → All (λ d. p d ≡ false) before
      → p e ≡ true
      → update_first p f (before ++ (e ∷ after)) ≡ some (before ++ (f e ∷ after))
  unfolding update_first
  update_first-found p f [] e after none_before h = ground (arith, h)
  update_first-found p f (d ∷ before) e after none_before h =
      ground (arith, none_before.0, update_first-found p f before e after none_before.1 h)

  abbrev pub statuses : Dict TraceStep ℕ → List (TraceEvent V) → List TraceStepStatus
  statuses starts es = map (status starts) es

  map-append :
      (f : TraceEvent V → TraceStepStatus) (xs ys : List (TraceEvent V))
      → map f (xs ++ ys) ≡ map f xs ++ map f ys
  map-append f [] ys = refl
  map-append f (x ∷ xs) ys = ap (λ r. f x ∷ r) (map-append f xs ys)

  statuses-to_summary :
      (b : ExecutionTraceBuilder V)
      → map (λ s. s.status) (to_summary b) ≡ statuses b.step_start_times b.events
  unfolding to_summary
  statuses-to_summary b =
      List.map-map (λ s. s.status)
        (λ e. record {
          step = e.step;
          status = status b.step_start_times e;
          duration_ms = e.duration_ms;
          metadata = e.metadata;
        })
        b.events

  record_error-found :
      (duration : Option ℤ) (step : TraceStep) (error : Error) (m : Option (Metadata V)) (date : ℕ)
      (before : List (TraceEvent V)) (e : TraceEvent V) (after : List (TraceEvent V))
      → All (λ d. is_faultless step d ≡ false) before
      → is_faultless step e ≡ true
      → record_error duration step error m date (before ++ (e ∷ after))
        ≡ before ++ (blame duration error m e ∷ after)
  unfolding record_error
  record_error-found duration step error m date before e after earlier h =
      rw
        (
          update_first-found (is_faultless step) (blame duration error m) before e after earlier h,
          record_error,
        )
        refl

  -- the event of a start
  attempt : TraceStep → Option (Metadata V) → Reading → TraceEvent V
  attempt step m t = record {
    step = step;
    timestamp = t.date;
    duration_ms = none;
    metadata = m;
    error = none;
    pushed_by_error = false;
  }

  -- An error goes to the wrong attempt: in a trace where a step has an event without an error, as one that
  -- has been ended, the error of a new attempt marks that event failed, the first of its kind, and the
  -- attempt itself is shown as skipped.
  pub retry_blames_first :
      (b : ExecutionTraceBuilder V) (step : TraceStep) (before : List (TraceEvent V))
      (e : TraceEvent V) (after : List (TraceEvent V)) (m m' : Option (Metadata V)) (error : Error)
      (t t' : Reading)
      → b.events ≡ before ++ (e ∷ after)
      → All (λ d. is_faultless step d ≡ false) before
      → e.step ≡ step
      → e.error ≡ none
      → let b' = fail step error m' t' (start step m t b) in
        map (λ s. s.status) (to_summary b')
        ≡ statuses b'.step_start_times before
          ++ (failed ∷ (statuses b'.step_start_times after ++ (skipped ∷ [])))
  unfolding start fail status attempt
  retry_blames_first b step before e after m m' error t t' split earlier its faultless =
      let starts = erase step (insert step t.performance b.step_start_times) in
      let b' = fail step error m' t' (start step m t b) in
      let duration =
        elapsed (lookup step (insert step t.performance b.step_start_times)) t'.performance in
      let gone : lookup step starts ≡ none =
        lookup-erase step step (insert step t.performance b.step_start_times)
        ∙ rw (==_refl step) refl in
      let faulty : is_faultless step e ≡ true = ground (arith, its, faultless, ==_refl step) in
      statuses-to_summary b'
      ∙ ap
          (λ es.
            statuses starts
              (record_error duration step error m' t'.date (es ++ (attempt step m t ∷ []))))
          split
      ∙ ap (λ es. statuses starts (record_error duration step error m' t'.date es))
          (append_assoc before (e ∷ after) (attempt step m t ∷ []))
      ∙ ap (statuses starts) (
          record_error-found duration step error m' t'.date before e
            (after ++ (attempt step m t ∷ [])) earlier faulty)
      ∙ map-append (status starts) before _
      ∙ ap (λ r. statuses starts before ++ (failed ∷ r))
          (map-append (status starts) after (attempt step m t ∷ []) ∙ rw (gone, status) refl)
