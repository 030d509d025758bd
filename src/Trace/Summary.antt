-- ===== src/Trace/Summary.antt =====
-- What a whole trace shows after any calls.
use infrgate.Prelude.{
  ℕ, ◌≡◌, refl, sym, ap, ◌∙◌, inl, inr, Bool, true, false, Option, none, some, List, [], ◌∷◌, ◌++◌,
  All, Bool-cases, Option-cases, if◌then◌else◌, arith,
}
use mathlib.Core.Path.{subst}
use infrgate.Prelude.Int.{ℤ, sub_ℕ}
use infrgate.Prelude.Text.{Text}
use infrgate.Prelude.Eq.{==_refl, ◌==◌}
use infrgate.Prelude.Dict.{lookup, lookup-insert, lookup-erase}
use infrgate.Prelude.Error.{Error, Result, ok, throw}
use infrgate.Trace.{
  TraceStep, Step-eq, step_eq_iff, TraceEvent, Metadata, Reading, ExecutionTraceBuilder,
  update_first, is_open, complete, or_same, complete_step, start, end, fail, new,
}
use infrgate.Trace.Steps.{IsSound, exists, start-IsSound, end-IsSound, fail-IsSound, end_inv}

-- A call of a method that records.
pub data Op (V : Type 0) : Type 0 where
  start_step : TraceStep → Option (Metadata V) → Reading → Op V
  end_step : TraceStep → Option (Metadata V) → Reading → Op V
  fail_step : TraceStep → Error → Option (Metadata V) → Reading → Op V

module _ {V : Type 0} where
  or_unchanged :
      Result (ExecutionTraceBuilder V) → ExecutionTraceBuilder V → ExecutionTraceBuilder V
  or_unchanged (ok b') b = b'
  or_unchanged (throw e) b = b

  unfoldable pub apply : Op V → ExecutionTraceBuilder V → ExecutionTraceBuilder V
  unfolding or_unchanged
  apply (start_step s m now) b = start s m now b
  apply (end_step s m now) b = or_unchanged (end s m now b) b
  apply (fail_step s e m now) b = fail s e m now b

  -- Calls one after the other, an `end` that throws included.
  unfoldable pub run : List (Op V) → ExecutionTraceBuilder V → ExecutionTraceBuilder V
  run [] b = b
  run (op ∷ ops) b = run ops (apply op b)

  or_unchanged-IsSound :
      (r : Result (ExecutionTraceBuilder V)) (b : ExecutionTraceBuilder V)
      → IsSound b
      → ((b' : ExecutionTraceBuilder V) → r ≡ ok b' → IsSound b')
      → IsSound (or_unchanged r b)
  unfolding or_unchanged
  or_unchanged-IsSound (ok b') b h k = k b' refl
  or_unchanged-IsSound (throw e) b h k = h

  apply-IsSound : (op : Op V) (b : ExecutionTraceBuilder V) → IsSound b → IsSound (apply op b)
  unfolding apply
  apply-IsSound (start_step s m now) b h = start-IsSound s m now b h
  apply-IsSound (end_step s m now) b h =
      or_unchanged-IsSound (end s m now b) b h (λ b' e. end-IsSound s m now b b' h e)
  apply-IsSound (fail_step s e m now) b h = fail-IsSound s e m now b h

  pub run-IsSound :
      (ops : List (Op V)) (b : ExecutionTraceBuilder V) → IsSound b → IsSound (run ops b)
  unfolding run
  run-IsSound [] b h = h
  run-IsSound (op ∷ ops) b h = run-IsSound ops (apply op b) (apply-IsSound op b h)

  new-IsSound : (id : Text) → IsSound (new {V = V} id)
  unfolding new lookup
  new-IsSound id = record { running = λ s r. cc }

  -- the reading at which a step has been started and not ended since, by the calls alone
  abbrev pub running_since : Option ℕ → TraceStep → List (Op V) → Option ℕ
  running_since since step [] = since
  running_since since step (start_step s m now ∷ ops) =
      running_since (if s == step then some now.performance else since) step ops
  running_since since step (end_step s m now ∷ ops) =
      running_since (if s == step then none else since) step ops
  running_since since step (fail_step s e m now ∷ ops) =
      running_since (if s == step then none else since) step ops

  lookup-apply_end :
      (step s : TraceStep) (m : Option (Metadata V)) (now : Reading) (b : ExecutionTraceBuilder V)
      → lookup step (or_unchanged (end s m now b) b).step_start_times
        ≡ (if s == step then none else lookup step b.step_start_times)
  unfolding or_unchanged end complete_step
  lookup-apply_end step s m now b = elim (Option-cases (lookup s b.step_start_times)) [
    | inl gone ↦
        rw (gone, end)
          (ground (arith, gone, step_eq_iff s step, lookup-erase s step b.step_start_times))
    | inr (t, found) ↦ rw (found, end) (lookup-erase s step b.step_start_times)
  ]

  pub lookup-run :
      (ops : List (Op V)) (b : ExecutionTraceBuilder V) (step : TraceStep)
      → lookup step (run ops b).step_start_times
        ≡ running_since (lookup step b.step_start_times) step ops
  unfolding run apply start fail
  lookup-run [] b step = refl
  lookup-run (start_step s m now ∷ ops) b step =
      lookup-run ops (start s m now b) step
      ∙ ap (λ r. running_since r step ops) (lookup-insert s step now.performance b.step_start_times)
  lookup-run (end_step s m now ∷ ops) b step =
      lookup-run ops (apply (end_step s m now) b) step
      ∙ ap (λ r. running_since r step ops) (lookup-apply_end step s m now b)
  lookup-run (fail_step s e m now ∷ ops) b step =
      lookup-run ops (fail s e m now b) step
      ∙ ap (λ r. running_since r step ops) (lookup-erase s step b.step_start_times)

  -- Of some events the first one of a step that has no duration gets one, and all else stays.
  pub record Completes (step : TraceStep) (d : ℤ) (es es' : List (TraceEvent V)) : Type 0 where
    pub before : List (TraceEvent V)
    pub event : TraceEvent V
    pub event' : TraceEvent V
    pub after : List (TraceEvent V)
    pub split : es ≡ before ++ (event ∷ after)
    pub changed : es' ≡ before ++ (event' ∷ after)
    pub earlier : All (λ e. is_open step e ≡ false) before
    pub is_its : event.step ≡ step
    pub unfinished : event.duration_ms ≡ none
    pub duration : event'.duration_ms ≡ some d
    pub same_step : event'.step ≡ event.step
    pub same_timestamp : event'.timestamp ≡ event.timestamp
    pub same_error : event'.error ≡ event.error

  Completes-cons :
      (step : TraceStep) (d : ℤ) (e : TraceEvent V) (es es' : List (TraceEvent V))
      → is_open step e ≡ false
      → Completes step d es es'
      → Completes step d (e ∷ es) (e ∷ es')
  Completes-cons step d e es es' h c = record {
    before = e ∷ c.before;
    event = c.event;
    event' = c.event';
    after = c.after;
    split = ap (λ r. e ∷ r) c.split;
    changed = ap (λ r. e ∷ r) c.changed;
    earlier = (h, c.earlier);
    is_its = c.is_its;
    unfinished = c.unfinished;
    duration = c.duration;
    same_step = c.same_step;
    same_timestamp = c.same_timestamp;
    same_error = c.same_error;
  }

  or_same-cons :
      (p : TraceEvent V → Bool) (f : TraceEvent V → TraceEvent V) (e : TraceEvent V)
      (es : List (TraceEvent V))
      → p e ≡ false
      → or_same (update_first p f (e ∷ es)) (e ∷ es) ≡ e ∷ or_same (update_first p f es) es
  unfolding update_first
  or_same-cons p f e es h = ground (arith, h)

  or_same-found :
      (p : TraceEvent V → Bool) (f : TraceEvent V → TraceEvent V) (e : TraceEvent V)
      (es : List (TraceEvent V))
      → p e ≡ true
      → or_same (update_first p f (e ∷ es)) (e ∷ es) ≡ f e ∷ es
  unfolding update_first
  or_same-found p f e es h = ground (arith, h)

  is_open_inv :
      (step : TraceStep) (e : TraceEvent V)
      → is_open step e ≡ true
      → (e.step ≡ step) × (e.duration_ms ≡ none)
  is_open_inv step e h = ground (arith, step_eq_iff e.step step)

  update_first-Completes :
      (step : TraceStep) (d : ℤ) (m : Option (Metadata V)) (es : List (TraceEvent V))
      → exists (is_open step) es ≡ true
      → Completes step d es (or_same (update_first (is_open step) (complete d m) es) es)
  update_first-Completes step d m [] h = cc
  update_first-Completes step d m (e ∷ es) h = elim (Bool-cases (is_open step e)) [
    | inl here ↦ record {
      before = [];
      event = e;
      event' = complete d m e;
      after = es;
      split = refl;
      changed = or_same-found (is_open step) (complete d m) e es here;
      earlier = tt;
      is_its = (is_open_inv step e here).0;
      unfinished = (is_open_inv step e here).1;
      duration = refl;
      same_step = refl;
      same_timestamp = refl;
      same_error = refl;
    }
    | inr further ↦
        let later : exists (is_open step) es ≡ true = ground (arith, h, further) in
        subst (Completes step d (e ∷ es))
          (sym (or_same-cons (is_open step) (complete d m) e es further))
          (Completes-cons step d e es _ further (update_first-Completes step d m es later))
  ]

  -- After any calls, ending a step that is running never loses its duration: the first event of that step
  -- without one gets the time since the call that started it last, no other event changes, and the step is
  -- no longer running.
  pub end-Completes :
      (id : Text) (ops : List (Op V)) (step : TraceStep) (m : Option (Metadata V)) (now : Reading)
      (b' : ExecutionTraceBuilder V)
      → end step m now (run ops (new id)) ≡ ok b'
      → (t : ℕ) × (running_since none step ops ≡ some t)
        × Completes step (sub_ℕ now.performance t) (run ops (new id)).events b'.events
        × (lookup step b'.step_start_times ≡ none)
  unfolding complete_step
  end-Completes id ops step m now b' e =
      let b = run ops (new id) in
      let (t, found, same) = end_inv step m now b b' e in
      let opened = (run-IsSound ops (new id) (new-IsSound id)).running step (rw found) in
      let started : running_since none step ops ≡ some t =
        unfold new lookup in (sym (lookup-run ops (new id) step) ∙ found) in
      (
        t,
        started,
        rw same (update_first-Completes step (sub_ℕ now.performance t) m b.events opened),
        rw same (lookup-erase step step b.step_start_times ∙ rw (==_refl step)),
      )
