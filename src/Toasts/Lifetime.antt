-- ===== src/Toasts/Lifetime.antt =====
-- How long a toast stays: until its timer after a dismissal, or until the next toast.
use infrgate.Prelude.{
  ℕ, ◌+◌, ◌≤◌, ◌<◌, ◌≡◌, inl, inr, Bool, true, false, ◌||◌, Option, none, some, List, [], ◌∷◌,
  length, All, arith, Bool-cases,
}
use infrgate.Prelude.Text.{Text}
use infrgate.Prelude.Eq.{◌==◌, ==_refl, List-eq, list_eq_iff}
use infrgate.Prelude.Dict.{Dict, lookup, lookup-erase}
use infrgate.Prelude.Decimal.{decimal, is_cons, is_cons-decimal}
use infrgate.Toasts.{
  Store, empty_store, max_safe_integer, toast_remove_delay, dispatch, toast, update, dismiss,
  open_changed, fire, fire_due, render, subscribe, unsubscribe,
}
use infrgate.Toasts.Events.{
  Occurrence, shown, updated, dismissed, opened, timer, rendered, subscribed, resubscribed,
  unsubscribed, Event, occur, run, run_timers,
}
use infrgate.Toasts.Timers.{
  shows, shows-filter, IsDueBy, IsPending, queue_removals-keeps, IsDueBy-keep,
  queue_removals-IsPending,
}
use infrgate.Toasts.Doomed.{IsDoomed, fire_due-IsDoomed, run-IsDoomed}

abbrev is_key : Text → Dict Text ℕ → Bool
is_key id [] = false
is_key id ((j, due) ∷ m) = j == id || is_key id m

is_key-IsPending :
    (b : ℕ) (id : Text) (m : Dict Text ℕ) → IsPending b (lookup id m) → is_key id m ≡ true
unfolding lookup
is_key-IsPending b id [] h = absurd h
is_key-IsPending b id ((j, due) ∷ m) h = ground (arith, is_key-IsPending b id m)

IsPending-mono : (b c : ℕ) (o : Option ℕ) → b ≤ c → IsPending b o → IsPending c o
IsPending-mono b c none le h = h
IsPending-mono b c (some due) le h = omega arith

module _ {N : Type 0} where
  -- No timer is due later than the delay after the last event.
  occur-IsDueBy :
      (b now : ℕ) (id : Text) (what : Occurrence N) (s : Store N)
      → now + toast_remove_delay ≤ b
      → IsDueBy b (lookup id s.timeouts)
      → IsDueBy b (lookup id (occur now what s).timeouts)
  unfolding occur toast update dismiss open_changed fire_due fire dispatch render subscribe
      unsubscribe
  occur-IsDueBy b now id (shown props) s early h = h
  occur-IsDueBy b now id (updated j props) s early h = h
  occur-IsDueBy b now id (dismissed j) s early h =
      queue_removals-keeps (IsDueBy b) now id (IsDueBy-keep b now early) j s.toasts s.timeouts h
  occur-IsDueBy b now id (opened j true) s early h = h
  occur-IsDueBy b now id (opened j false) s early h =
      queue_removals-keeps (IsDueBy b) now id (IsDueBy-keep b now early) (some j) s.toasts
        s.timeouts h
  occur-IsDueBy b now id (timer j) s early h = ground (arith, lookup-erase j id s.timeouts)
  occur-IsDueBy b now id (rendered c) s early h = h
  occur-IsDueBy b now id (subscribed c) s early h = h
  occur-IsDueBy b now id (resubscribed c) s early h = h
  occur-IsDueBy b now id (unsubscribed c) s early h = h

  run-IsDueBy :
      (t : ℕ) (id : Text) (es : List (Event N)) (s : Store N)
      → All (λ e. e.now ≤ t) es
      → IsDueBy (t + toast_remove_delay) (lookup id s.timeouts)
      → IsDueBy (t + toast_remove_delay) (lookup id (run es s).timeouts)
  unfolding run
  run-IsDueBy t id [] s past h = h
  run-IsDueBy t id (e ∷ es) s past h =
      run-IsDueBy t id es (occur e.now e.what s) past.1
        (occur-IsDueBy (t + toast_remove_delay) e.now id e.what s (omega arith) h)

  -- What is gone stays gone while timers run.
  fire_due_gone :
      (now : ℕ) (id j : Text) (s : Store N)
      → shows id s.toasts ≡ false
      → shows id (fire_due now j s).toasts ≡ false
  unfolding fire_due fire dispatch
  fire_due_gone now id j s gone = ground (arith, shows-filter j id s.toasts)

  run_timers_gone :
      (m : Dict Text ℕ) (now : ℕ) (id : Text) (s : Store N)
      → shows id s.toasts ≡ false
      → shows id (run_timers m now s).toasts ≡ false
  unfolding run_timers
  run_timers_gone [] now id s gone = gone
  run_timers_gone ((j, due) ∷ m) now id s gone =
      run_timers_gone m now id (fire_due now j s) (fire_due_gone now id j s gone)

  -- The timer of the id runs, if it is due.
  fire_due_doomed :
      (now : ℕ) (id : Text) (s : Store N)
      → IsDoomed now id s
      → shows id (fire_due now id s).toasts ≡ false
  unfolding fire_due fire dispatch
  fire_due_doomed now id s (inl gone) = fire_due_gone now id id s gone
  fire_due_doomed now id s (inr soon) = ground (arith, shows-filter id id s.toasts, ==_refl id)

  run_timers_doomed :
      (m : Dict Text ℕ) (now : ℕ) (id : Text) (s : Store N)
      → is_key id m ≡ true
      → IsDoomed now id s
      → shows id (run_timers m now s).toasts ≡ false
  unfolding run_timers
  run_timers_doomed [] now id s there d = cc
  run_timers_doomed ((j, due) ∷ m) now id s there d = elim (Bool-cases (j == id)) [
    | inl same ↦
        rw ((list_eq_iff j id).0 same)
          (run_timers_gone m now id (fire_due now id s) (fire_due_doomed now id s d))
    | inr other ↦
        run_timers_doomed m now id (fire_due now j s) (rw other at there)
          (fire_due-IsDoomed now now id j s d)
  ]

  -- Once every timer that is due has run, nothing that was about to go is left.
  run_timers_clear :
      (b now : ℕ) (id : Text) (s : Store N)
      → b ≤ now
      → IsDoomed b id s
      → shows id (run_timers s.timeouts now s).toasts ≡ false
  run_timers_clear b now id s le (inl gone) = run_timers_gone s.timeouts now id s gone
  run_timers_clear b now id s le (inr soon) =
      run_timers_doomed s.timeouts now id s (is_key-IsPending b id s.timeouts soon)
        (inr (IsPending-mono b now (lookup id s.timeouts) le soon))

  dismiss_dooms :
      (t : ℕ) (id : Text) (s : Store N)
      → is_cons id ≡ true
      → IsDueBy (t + toast_remove_delay) (lookup id s.timeouts)
      → IsDoomed (t + toast_remove_delay) id (dismiss t (some id) s)
  unfolding dismiss dispatch
  dismiss_dooms t [] s full h = cc
  dismiss_dooms t (c ∷ id) s full h =
      inr (
        queue_removals-IsPending (t + toast_remove_delay) t c id s.toasts s.timeouts (omega arith)
          h)

  -- A toast that is dismissed by its id is gone from the removal delay on, once the timers that are due
  -- have run, whatever happens in the meantime: another dismissal does not put it off, and an update
  -- does not keep it, also one that opens it again. The ids must not have run around to where they
  -- began, and the clock must not have been later before the dismissal.
  pub dismissed_gone :
      (before after : List (Event N)) (t now k : ℕ)
      → All (λ e. e.now ≤ t) before
      → k ≤ (run before empty_store).counter
      → (run before empty_store).counter + length after < max_safe_integer
      → t + toast_remove_delay ≤ now
      → let s = run after (dismiss t (some (decimal k)) (run before empty_store)) in
        shows (decimal k) (run_timers s.timeouts now s).toasts ≡ false
  unfolding empty_store lookup dismiss dispatch
  dismissed_gone before after t now k past old small late =
      let s = run before empty_store in
      let due = run-IsDueBy t (decimal k) before empty_store past tt in
      run_timers_clear (t + toast_remove_delay) now (decimal k)
        (run after (dismiss t (some (decimal k)) s)) late
        (run-IsDoomed (t + toast_remove_delay) k after (dismiss t (some (decimal k)) s) old small
          (dismiss_dooms t (decimal k) s (is_cons-decimal k) due))
