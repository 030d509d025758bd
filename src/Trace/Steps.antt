-- ===== src/Trace/Steps.antt =====
-- `start`, `end` and `error`: the events of a trace and the steps that are running.
use infrgate.Prelude.{
  ℕ, ◌≡◌, inl, inr, Bool, true, false, ◌&&◌, Option, some, List, [], ◌∷◌, ◌++◌, arith, Bool-cases,
  Option-cases,
}
use infrgate.Prelude.Int.{ℤ, sub_ℕ}
use infrgate.Prelude.Eq.{◌==◌}
use infrgate.Prelude.Dict.{Dict, lookup, erase, lookup-insert, lookup-erase}
use infrgate.Prelude.Error.{Error, ok}
use infrgate.Trace.{
  TraceStep, Step-eq, step_eq_iff, TraceEvent, Metadata, Reading, ExecutionTraceBuilder, is_some,
  update_first, is_open, is_faultless, complete, blame, or_same, complete_step, start, end, fail,
  record_error,
}

-- whether an event of a list passes a test
abbrev pub exists {ℓ} : {A : Type ℓ} → (A → Bool) → List A → Bool
exists p [] = false
exists p (x ∷ xs) = elim (p x) [ true ↦ true | false ↦ exists p xs ]

-- a step that runs on after another one is erased is not that one
still_running :
    (step s : TraceStep) (m : Dict TraceStep ℕ)
    → is_some (lookup s (erase step m)) ≡ true
    → ((step == s) ≡ false) × (is_some (lookup s m) ≡ true)
still_running step s m h = ground (arith, lookup-erase step s m)

module _ {V : Type 0} where
  -- A step that is running has an event with no duration.
  pub record IsSound (b : ExecutionTraceBuilder V) : Type 0 where
    pub running :
        (s : TraceStep)
        → is_some (lookup s b.step_start_times) ≡ true
        → exists (is_open s) b.events ≡ true

  exists-append :
      (p : TraceEvent V → Bool) (xs ys : List (TraceEvent V))
      → exists p ys ≡ true
      → exists p (xs ++ ys) ≡ true
  exists-append p [] ys h = h
  exists-append p (x ∷ xs) ys h = ground (arith, exists-append p xs ys h)

  exists-append_left :
      (p : TraceEvent V → Bool) (xs ys : List (TraceEvent V))
      → exists p xs ≡ true
      → exists p (xs ++ ys) ≡ true
  exists-append_left p (x ∷ xs) ys h = ground (arith, exists-append_left p xs ys)
  exists-append_left p [] ys h = cc

  -- a change of the first event found leaves the events of the other steps open
  exists-update_first :
      (q p : TraceEvent V → Bool) (f : TraceEvent V → TraceEvent V) (es : List (TraceEvent V))
      → ((e : TraceEvent V) → p e ≡ true → q e ≡ false)
      → exists q es ≡ true
      → exists q (or_same (update_first p f es) es) ≡ true
  unfolding update_first
  exists-update_first q p f [] other h = h
  exists-update_first q p f (e ∷ es) other h =
      ground (arith, other e, exists-update_first q p f es other)

  -- Starting a step keeps a sound trace sound.
  pub start-IsSound :
      (step : TraceStep) (m : Option (Metadata V)) (now : Reading) (b : ExecutionTraceBuilder V)
      → IsSound b
      → IsSound (start step m now b)
  unfolding start
  start-IsSound step m now b h = record {
    running = λ s r. elim (Bool-cases (step == s)) [
      | inl e ↦ exists-append (is_open s) b.events _ (ground (arith, e))
      | inr e ↦ exists-append_left (is_open s) b.events _ (h.running s (rw (lookup-insert, e) at r))
    ];
  }

  other_step :
      (step s : TraceStep) (e : TraceEvent V) (x y : Bool)
      → (step == s) ≡ false
      → (e.step == step && x) ≡ true
      → (e.step == s && y) ≡ false
  other_step step s e x y ne h =
      ground (arith, step_eq_iff step s, step_eq_iff e.step step, step_eq_iff e.step s)

  complete_step-IsSound :
      (duration : ℤ) (step : TraceStep) (m : Option (Metadata V)) (b : ExecutionTraceBuilder V)
      → IsSound b
      → IsSound (complete_step duration step m b)
  unfolding complete_step
  complete_step-IsSound duration step m b h = record {
    running = λ s r.
        let (ne, r') = still_running step s b.step_start_times r in
        exists-update_first (is_open s) (is_open step) (complete duration m) b.events
          (λ e p. other_step step s e _ _ ne p) (h.running s r');
  }

  pub end_inv :
      (step : TraceStep) (m : Option (Metadata V)) (now : Reading) (b b' : ExecutionTraceBuilder V)
      → end step m now b ≡ ok b'
      → (t : ℕ) × (lookup step b.step_start_times ≡ some t)
        × (b' ≡ complete_step (sub_ℕ now.performance t) step m b)
  unfolding end
  end_inv step m now b b' e = ground arith

  -- Ending a step keeps a sound trace sound.
  pub end-IsSound :
      (step : TraceStep) (m : Option (Metadata V)) (now : Reading) (b b' : ExecutionTraceBuilder V)
      → IsSound b
      → end step m now b ≡ ok b'
      → IsSound b'
  end-IsSound step m now b b' h e =
      let (t, found, same) = end_inv step m now b b' e in
      rw same (complete_step-IsSound (sub_ℕ now.performance t) step m b h)

  exists-record_error :
      (q : TraceEvent V → Bool) (duration : Option ℤ) (step : TraceStep) (error : Error)
      (m : Option (Metadata V)) (date : ℕ) (es : List (TraceEvent V))
      → ((e : TraceEvent V) → is_faultless step e ≡ true → q e ≡ false)
      → exists q es ≡ true
      → exists q (record_error duration step error m date es) ≡ true
  unfolding record_error
  exists-record_error q duration step error m date es other h =
      let changed = exists-update_first q (is_faultless step) (blame duration error m) es other h in
      elim (Option-cases (update_first (is_faultless step) (blame duration error m) es)) [
        | inl e ↦ rw (e, record_error) (exists-append_left q es _ h)
        | inr (es', e) ↦ rw (e, record_error) (rw e at changed)
      ]

  -- Reporting an error of a step keeps a sound trace sound.
  pub fail-IsSound :
      (step : TraceStep) (error : Error) (m : Option (Metadata V)) (now : Reading)
      (b : ExecutionTraceBuilder V)
      → IsSound b
      → IsSound (fail step error m now b)
  unfolding fail
  fail-IsSound step error m now b h = record {
    running = λ s r.
        let (ne, r') = still_running step s b.step_start_times r in
        exists-record_error (is_open s) _ step error m now.date b.events
          (λ e p. other_step step s e _ _ ne p) (h.running s r');
  }
