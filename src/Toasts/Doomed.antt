-- ===== src/Toasts/Doomed.antt =====
-- A toast that is gone, or about to go, stays so whatever happens.
use infrgate.Prelude.{
  ℕ, ◌+◌, ◌%◌, ◌≤◌, ◌<◌, ◌≡◌, ◌∙◌, ◌⊎◌, inl, inr, true, false, Option, some, List, [], ◌∷◌, length,
  leb, arith, Bool-cases, Option-cases,
}
use infrgate.Prelude.Text.{Text}
use infrgate.Prelude.Eq.{◌==◌, ==_ne, List-eq}
use infrgate.Prelude.Dict.{lookup, lookup-erase}
use infrgate.Prelude.Decimal.{decimal, decimal-injective}
use infrgate.Toasts.{
  Props, Store, max_safe_integer, dispatch, toast, update, dismiss, open_changed, fire, fire_due,
  render, subscribe, unsubscribe,
}
use infrgate.Toasts.Events.{
  Occurrence, shown, updated, dismissed, opened, timer, rendered, subscribed, resubscribed,
  unsubscribed, Event, occur, run,
}
use infrgate.Toasts.Timers.{
  shows, shows-map, shows-filter, IsPending, queue_removals-keeps, IsPending-keep,
}

-- A new toast has an id of its own.
fresh :
    (k n : ℕ)
    → k ≤ n
    → n + 1 < max_safe_integer
    → (decimal ((n + 1) % max_safe_integer) == decimal k) ≡ false
fresh k n h small =
    ==_ne (decimal ((n + 1) % max_safe_integer)) (decimal k)
      (λ e. absurd (omega (arith, decimal-injective ((n + 1) % max_safe_integer) k e)))

module _ {N : Type 0} where
  -- A toast is gone, or is about to go.
  abbrev pub IsDoomed : ℕ → Text → Store N → Type 0
  IsDoomed b id s = (shows id s.toasts ≡ false) ⊎ IsPending b (lookup id s.timeouts)

  fire-IsDoomed :
      (b now : ℕ) (id j : Text) (s : Store N) → IsDoomed b id s → IsDoomed b id (fire now j s)
  unfolding fire dispatch
  fire-IsDoomed b now id j s d = elim (Bool-cases (j == id)) [
    | inl same ↦ inl (shows-filter j id s.toasts ∙ rw same)
    | inr other ↦ elim d [
      | inl gone ↦ inl (shows-filter j id s.toasts ∙ rw (other, gone))
      | inr soon ↦ inr (rw (lookup-erase j id s.timeouts, other) soon)
    ]
  ]

  pub fire_due-IsDoomed :
      (b now : ℕ) (id j : Text) (s : Store N) → IsDoomed b id s → IsDoomed b id (fire_due now j s)
  unfolding fire_due
  fire_due-IsDoomed b now id j s d = elim (Option-cases (lookup j s.timeouts)) [
    | inl none_set ↦ rw (none_set, fire_due) d
    | inr (due, set) ↦
        rw (set, fire_due)
          (elim (Bool-cases (leb due now)) [
            | inl late ↦ rw late (fire-IsDoomed b now id j s d)
            | inr early ↦ rw early d
          ])
  ]

  dismiss-IsDoomed :
      (b now : ℕ) (id : Text) (j : Option Text) (s : Store N)
      → IsDoomed b id s
      → IsDoomed b id (dismiss now j s)
  unfolding dismiss dispatch
  dismiss-IsDoomed b now id j s (inl gone) =
      inl (shows-map _ id s.toasts (λ t. ground arith) ∙ gone)
  dismiss-IsDoomed b now id j s (inr soon) =
      inr (
        queue_removals-keeps (IsPending b) now id (IsPending-keep b now) j s.toasts s.timeouts soon)

  update-IsDoomed :
      (b now : ℕ) (id j : Text) (props : Props N) (s : Store N)
      → IsDoomed b id s
      → IsDoomed b id (update now j props s)
  unfolding update dispatch
  update-IsDoomed b now id j props s (inl gone) =
      inl (shows-map _ id s.toasts (λ t. ground arith) ∙ gone)
  update-IsDoomed b now id j props s (inr soon) = inr soon

  occur-IsDoomed :
      (b k now : ℕ) (what : Occurrence N) (s : Store N)
      → k ≤ s.counter
      → s.counter + 1 < max_safe_integer
      → IsDoomed b (decimal k) s
      → IsDoomed b (decimal k) (occur now what s)
  unfolding occur toast open_changed dispatch render subscribe unsubscribe
  occur-IsDoomed b k now (shown props) s old small d = inl (rw (fresh k s.counter old small))
  occur-IsDoomed b k now (updated id props) s old small d =
      update-IsDoomed b now (decimal k) id props s d
  occur-IsDoomed b k now (dismissed id) s old small d = dismiss-IsDoomed b now (decimal k) id s d
  occur-IsDoomed b k now (opened id true) s old small d = d
  occur-IsDoomed b k now (opened id false) s old small d =
      dismiss-IsDoomed b now (decimal k) (some id) s d
  occur-IsDoomed b k now (timer id) s old small d = fire_due-IsDoomed b now (decimal k) id s d
  occur-IsDoomed b k now (rendered c) s old small d = d
  occur-IsDoomed b k now (subscribed c) s old small d = d
  occur-IsDoomed b k now (resubscribed c) s old small d = d
  occur-IsDoomed b k now (unsubscribed c) s old small d = d

  -- the counter goes up by at most one
  counter-occur :
      (now : ℕ) (what : Occurrence N) (s : Store N)
      → s.counter + 1 < max_safe_integer
      → (s.counter ≤ (occur now what s).counter) × ((occur now what s).counter ≤ s.counter + 1)
  unfolding occur toast update dismiss open_changed fire_due fire dispatch render subscribe
      unsubscribe
  counter-occur now (shown props) s small = omega arith
  counter-occur now (updated id props) s small = omega arith
  counter-occur now (dismissed id) s small = omega arith
  counter-occur now (opened id true) s small = omega arith
  counter-occur now (opened id false) s small = omega arith
  counter-occur now (timer id) s small = ground arith
  counter-occur now (rendered c) s small = omega arith
  counter-occur now (subscribed c) s small = omega arith
  counter-occur now (resubscribed c) s small = omega arith
  counter-occur now (unsubscribed c) s small = omega arith

  pub run-IsDoomed :
      (b k : ℕ) (es : List (Event N)) (s : Store N)
      → k ≤ s.counter
      → s.counter + length es < max_safe_integer
      → IsDoomed b (decimal k) s
      → IsDoomed b (decimal k) (run es s)
  unfolding run
  run-IsDoomed b k [] s old small d = d
  run-IsDoomed b k (e ∷ es) s old small d =
      let grown = counter-occur e.now e.what s (omega arith) in
      run-IsDoomed b k es (occur e.now e.what s) (omega arith) (omega arith)
        (occur-IsDoomed b k e.now e.what s old (omega arith) d)
