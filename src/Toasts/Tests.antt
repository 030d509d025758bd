-- ===== src/Toasts/Tests.antt =====
-- Three toasts, two components and their timers, and the theorems on them there.
use infrgate.Prelude.{ℕ, ◌≡◌, refl, true, false, none, some, List, [], ◌∷◌, arith}
use infrgate.Prelude.Text.{codes}
use infrgate.Prelude.Eq.{List-eq, Nat-eq}
use infrgate.Prelude.Dict.{lookup, insert}
use infrgate.Prelude.Decimal.{decimal}
use infrgate.Toasts.{
  node, flag, Props, empty_store, toast, dismiss, render, subscribe, unsubscribe, dispatch,
  fire_due, open_changed,
}
use infrgate.Toasts.Events.{
  shown, updated, dismissed, opened, timer, rendered, subscribed, resubscribed, Event, run,
  run_timers,
}
use infrgate.Toasts.Timers.{shows}
use infrgate.Toasts.Lifetime.{dismissed_gone}
use infrgate.Toasts.Kept.{kept_until}
use infrgate.Toasts.Views.{in_sync}

abbrev saved : Props ℕ
saved = (codes "title", node 7) ∷ []

-- an update that opens the toast again
abbrev reopened : Props ℕ
reopened = (codes "open", flag true) ∷ []

abbrev first_toast : List (Event ℕ)
first_toast = (record { now = 10; what = shown saved }) ∷ []

abbrev afterwards : List (Event ℕ)
afterwards =
    (record { now = 600; what = updated (codes "1") reopened })
    ∷ (record { now = 700; what = dismissed none })
    ∷ (record { now = 800; what = timer (codes "1") })
    ∷ []

abbrev traffic : List (Event ℕ)
traffic =
    (record { now = 10; what = shown saved })
    ∷ (record { now = 20; what = rendered 1 })
    ∷ (record { now = 20; what = subscribed 1 })
    ∷ (record { now = 30; what = opened (codes "1") false })
    ∷ (record { now = 40; what = shown saved })
    ∷ (record { now = 40; what = resubscribed 1 })
    ∷ (record { now = 2000000; what = timer (codes "1") })
    ∷ []

-- the timer of the first toast leaves the second one alone
second_stays : shows (codes "2") (run traffic empty_store).toasts ≡ true
unfolding run toast decimal empty_store fire_due lookup subscribe unsubscribe dispatch open_changed
    render insert
second_stays = refl

dismissed_gone_example :
    let s = run afterwards (dismiss 500 (some (decimal 1)) (run first_toast empty_store)) in
    shows (decimal 1) (run_timers s.timeouts 1000500 s).toasts ≡ false
unfolding run toast empty_store dispatch
dismissed_gone_example =
    dismissed_gone first_toast afterwards 500 1000500 1 (omega arith) (omega arith) (omega arith)
      (omega arith)

abbrev quiet : List (Event ℕ)
quiet =
    (record { now = 600; what = updated (codes "1") reopened })
    ∷ (record { now = 700; what = dismissed (some (codes "9")) })
    ∷ (record { now = 1000700; what = timer (codes "9") })
    ∷ []

kept_until_example :
    shows (toast 10 saved empty_store).0 (run quiet (toast 10 saved (empty_store {N = ℕ})).1).toasts
    ≡ true
unfolding toast empty_store lookup decimal
kept_until_example = kept_until 10 saved quiet empty_store refl (refl, (refl, (refl, tt)))

in_sync_example :
    let s = run traffic (subscribe 4 (render 4 empty_store)) in lookup 4 s.views ≡ some s.toasts
in_sync_example =
    in_sync 4 traffic empty_store (refl, (refl, (refl, (refl, (refl, (refl, (refl, tt)))))))
