-- ===== src/Toasts/Events.antt =====
-- What can happen to the toasts, as events in the order in which the event loop runs them: calls of
-- `toast`, of what it returns, of `useToast`'s `dismiss` and of a toast's `onOpenChange`, timers, and
-- the life of the components that use the hook. `resubscribed` is the cleanup and the effect that follow
-- a change of a component's state, one right after the other.
use infrgate.Prelude.{ℕ, Bool, Option, List, [], ◌∷◌}
use infrgate.Prelude.Text.{Text}
use infrgate.Prelude.Dict.{Dict}
use infrgate.Toasts.{
  Props, Store, toast, update, dismiss, open_changed, fire_due, render, subscribe, unsubscribe,
}

pub data Occurrence (N : Type 0) : Type 0 where
  shown : Props N → Occurrence N
  updated : Text → Props N → Occurrence N
  dismissed : Option Text → Occurrence N
  opened : Text → Bool → Occurrence N
  timer : Text → Occurrence N
  rendered : ℕ → Occurrence N
  subscribed : ℕ → Occurrence N
  resubscribed : ℕ → Occurrence N
  unsubscribed : ℕ → Occurrence N

pub record Event (N : Type 0) : Type 0 where
  pub now : ℕ
  pub what : Occurrence N

module _ {N : Type 0} where
  unfoldable pub occur : ℕ → Occurrence N → Store N → Store N
  occur now (shown props) s = (toast now props s).1
  occur now (updated id props) s = update now id props s
  occur now (dismissed id) s = dismiss now id s
  occur now (opened id open_now) s = open_changed now id open_now s
  occur now (timer id) s = fire_due now id s
  occur now (rendered c) s = render c s
  occur now (subscribed c) s = subscribe c s
  occur now (resubscribed c) s = subscribe c (unsubscribe c s)
  occur now (unsubscribed c) s = unsubscribe c s

  unfoldable pub run : List (Event N) → Store N → Store N
  unfolding occur
  run [] s = s
  run (e ∷ es) s = run es (occur e.now e.what s)

  -- every timer of the list that is due runs
  unfoldable pub run_timers : Dict Text ℕ → ℕ → Store N → Store N
  run_timers [] now s = s
  run_timers ((id, due) ∷ rest) now s = run_timers rest now (fire_due now id s)
