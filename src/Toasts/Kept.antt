-- ===== src/Toasts/Kept.antt =====
-- A toast that nobody dismisses stays until the next one.
use infrgate.Prelude.{
  ℕ, ◌+◌, ◌≡◌, ap, ◌∙◌, Bool, true, false, not, ◌&&◌, none, some, List, [], ◌∷◌, All, leb, arith,
  inl, inr, Bool-cases, Option-cases,
}
use infrgate.Prelude.Text.{Text}
use infrgate.Prelude.Eq.{◌==◌, ==_refl, List-eq, list_eq_iff}
use infrgate.Prelude.Dict.{lookup, lookup-erase, lookup-insert}
use infrgate.Prelude.Decimal.{is_cons}
use infrgate.Toasts.{
  Props, Store, toast_remove_delay, add_to_remove_queue, dispatch, toast, update, dismiss,
  open_changed, fire, fire_due, render, subscribe, unsubscribe,
}
use infrgate.Toasts.Events.{
  Occurrence, shown, updated, dismissed, opened, timer, rendered, subscribed, resubscribed,
  unsubscribed, Event, occur, run,
}
use infrgate.Toasts.Timers.{shows, shows-map, shows-filter}

module _ {N : Type 0} where
  -- No new toast, and no dismissal of the toast or of all.
  abbrev pub spares : Text → Occurrence N → Bool
  spares id (shown props) = false
  spares id (dismissed none) = false
  spares id (dismissed (some j)) = is_cons j && not (j == id)
  spares id (opened j false) = is_cons j && not (j == id)
  spares id _ = true

  -- The toast is there, and has no timer.
  record IsSafe (id : Text) (s : Store N) : Type 0 where
    there : shows id s.toasts ≡ true
    unset : lookup id s.timeouts ≡ none

  dismiss-IsSafe :
      (now : ℕ) (id j : Text) (s : Store N)
      → is_cons j && not (j == id) ≡ true
      → IsSafe id s
      → IsSafe id (dismiss now (some j) s)
  unfolding dismiss dispatch add_to_remove_queue
  dismiss-IsSafe now id [] s other safe = cc
  dismiss-IsSafe now id (c ∷ j) s other safe = record {
    there = shows-map _ id s.toasts (λ t. ground arith) ∙ safe.there;
    unset =
        ground (arith, safe.unset, lookup-insert (c ∷ j) id (now + toast_remove_delay) s.timeouts);
  }

  fire-IsSafe :
      (now : ℕ) (id j : Text) (s : Store N)
      → (j == id) ≡ false
      → IsSafe id s
      → IsSafe id (fire now j s)
  unfolding fire dispatch
  fire-IsSafe now id j s other safe = record {
    there = shows-filter j id s.toasts ∙ rw other safe.there;
    unset = lookup-erase j id s.timeouts ∙ rw other safe.unset;
  }

  -- a key that has a timer is no key that has none
  apart :
      (id j : Text) (s : Store N) (due : ℕ)
      → lookup j s.timeouts ≡ some due
      → lookup id s.timeouts ≡ none
      → (j == id) ≡ false
  apart id j s due set unset = elim (Bool-cases (j == id)) [
    | inl same ↦ let e = (list_eq_iff j id).0 same in cc (ap (λ k. lookup k s.timeouts) e)
    | inr other ↦ other
  ]

  fire_due-IsSafe :
      (now : ℕ) (id j : Text) (s : Store N) → IsSafe id s → IsSafe id (fire_due now j s)
  unfolding fire_due
  fire_due-IsSafe now id j s safe = elim (Option-cases (lookup j s.timeouts)) [
    | inl none_set ↦ rw (none_set, fire_due) safe
    | inr (due, set) ↦
        rw (set, fire_due)
          (elim (Bool-cases (leb due now)) [
            | inl late ↦ rw late (fire-IsSafe now id j s (apart id j s due set safe.unset) safe)
            | inr early ↦ rw early safe
          ])
  ]

  occur-IsSafe :
      (now : ℕ) (id : Text) (what : Occurrence N) (s : Store N)
      → spares id what ≡ true
      → IsSafe id s
      → IsSafe id (occur now what s)
  unfolding occur update open_changed dispatch render subscribe unsubscribe
  occur-IsSafe now id (shown props) s kind safe = cc
  occur-IsSafe now id (updated j props) s kind safe = record {
    there = shows-map _ id s.toasts (λ t. ground arith) ∙ safe.there;
    unset = safe.unset;
  }
  occur-IsSafe now id (dismissed none) s kind safe = cc
  occur-IsSafe now id (dismissed (some j)) s kind safe = dismiss-IsSafe now id j s kind safe
  occur-IsSafe now id (opened j true) s kind safe = safe
  occur-IsSafe now id (opened j false) s kind safe = dismiss-IsSafe now id j s kind safe
  occur-IsSafe now id (timer j) s kind safe = fire_due-IsSafe now id j s safe
  occur-IsSafe now id (rendered c) s kind safe = record { there = safe.there; unset = safe.unset }
  occur-IsSafe now id (subscribed c) s kind safe = record { there = safe.there; unset = safe.unset }
  occur-IsSafe now id (resubscribed c) s kind safe = record {
    there = safe.there;
    unset = safe.unset;
  }
  occur-IsSafe now id (unsubscribed c) s kind safe = record {
    there = safe.there;
    unset = safe.unset;
  }

  run-spares :
      (id : Text) (es : List (Event N)) (s : Store N)
      → All (λ e. spares id e.what ≡ true) es
      → IsSafe id s
      → IsSafe id (run es s)
  unfolding run
  run-spares id [] s kind safe = safe
  run-spares id (e ∷ es) s kind safe =
      run-spares id es (occur e.now e.what s) kind.1 (occur-IsSafe e.now id e.what s kind.0 safe)

  -- A new toast whose id has no timer stays as long as no other toast is shown and nothing dismisses it
  -- or all toasts: the timers of the toasts before it, the updates, and the dismissals of others leave
  -- it there.
  pub kept_until :
      (now : ℕ) (props : Props N) (es : List (Event N)) (s : Store N)
      → lookup (toast now props s).0 s.timeouts ≡ none
      → All (λ e. spares (toast now props s).0 e.what ≡ true) es
      → shows (toast now props s).0 (run es (toast now props s).1).toasts ≡ true
  unfolding toast dispatch
  kept_until now props es s unset kind =
      let safe : IsSafe (toast now props s).0 (toast now props s).1 = record {
        there = rw (==_refl (toast now props s).0);
        unset = unset;
      } in
      (run-spares (toast now props s).0 es (toast now props s).1 kind safe).there
