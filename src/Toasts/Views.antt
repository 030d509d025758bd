-- ===== src/Toasts/Views.antt =====
-- What the components that use the hook see, and how much there is to see.
use infrgate.Prelude.{
  ℕ, ◌≤◌, ◌≡◌, refl, Bool, true, false, ◌||◌, some, List, [], ◌∷◌, ◌++◌, All, length, arith, leb,
  inl, inr, Bool-cases, Option-cases, not, ◌∙◌, length-map, length-filter, if◌then◌else◌,
}
use native.Mathlib.Nat.{le_trans}
use infrgate.Prelude.Text.{Text}
use infrgate.Prelude.Eq.{◌==◌, ==_refl, Nat-eq, List-eq}
use infrgate.Prelude.Dict.{Dict, lookup, insert, lookup-insert, lookup-insert_self}
use infrgate.Toasts.{
  ToasterToast, Action, Store, empty_store, toast_limit, dispatch, notify, toast, update, dismiss,
  open_changed, fire, fire_due, render, subscribe, unsubscribe, remove_first,
}
use infrgate.Toasts.Events.{
  Occurrence, shown, updated, dismissed, opened, timer, rendered, subscribed, resubscribed,
  unsubscribed, Event, occur, run,
}

abbrev pub listens : ℕ → List ℕ → Bool
listens c [] = false
listens c (d ∷ ds) = d == c || listens c ds

listens-append : (c d : ℕ) (ds : List ℕ) → listens c (ds ++ d ∷ []) ≡ (listens c ds || d == c)
listens-append c d [] = ground arith
listens-append c d (e ∷ ds) = ground (arith, listens-append c d ds)

listens-remove_first :
    (c d : ℕ) (ds : List ℕ)
    → (d == c) ≡ false
    → listens c ds ≡ true
    → listens c (remove_first d ds) ≡ true
unfolding remove_first
listens-remove_first c d [] other h = h
listens-remove_first c d (e ∷ ds) other h = ground (arith, listens-remove_first c d ds)

heard_again :
    (c d : ℕ) (ds : List ℕ) → listens c ds ≡ true → listens c (remove_first d ds ++ d ∷ []) ≡ true
heard_again c d ds h = listens-append c d (remove_first d ds) ∙ elim (Bool-cases (d == c)) [
  | inl same ↦ ground arith
  | inr other ↦ rw (listens-remove_first c d ds other h)
]

module _ {N : Type 0} where
  lookup-notify :
      (c : ℕ) (cs : List ℕ) (ts : List (ToasterToast N)) (m : Dict ℕ (List (ToasterToast N)))
      → lookup c (notify cs ts m) ≡ (if listens c cs then some ts else lookup c m)
  unfolding notify
  lookup-notify c [] ts m = refl
  lookup-notify c (d ∷ cs) ts m =
      ground (arith, lookup-notify c cs ts (insert d ts m), lookup-insert d c ts m)

  -- A timer runs, or nothing happens.
  fire_due_either :
      (P : Store N → Type 0) (now : ℕ) (id : Text) (s : Store N)
      → P s
      → P (fire now id s)
      → P (fire_due now id s)
  unfolding fire_due
  fire_due_either P now id s before after = elim (Option-cases (lookup id s.timeouts)) [
    | inl unset ↦ rw (unset, fire_due) before
    | inr (due, set) ↦
        rw (set, fire_due)
          (elim (Bool-cases (leb due now)) [
            | inl late ↦ rw late after
            | inr early ↦ rw early before
          ])
  ]

  -- The component listens, and shows the toasts.
  record IsInSync (c : ℕ) (s : Store N) : Type 0 where
    heard : listens c s.listeners ≡ true
    seen : lookup c s.views ≡ some s.toasts

  dispatch-IsInSync :
      (c now : ℕ) (a : Action N) (s : Store N) → IsInSync c s → IsInSync c (dispatch now a s)
  unfolding dispatch
  dispatch-IsInSync c now a s sync = record {
    heard = sync.heard;
    seen = lookup-notify c s.listeners _ s.views ∙ rw sync.heard;
  }

  -- the component is not taken off the listeners
  abbrev pub stays : ℕ → Occurrence N → Bool
  stays c (unsubscribed d) = not (d == c)
  stays c _ = true

  occur-IsInSync :
      (c now : ℕ) (what : Occurrence N) (s : Store N)
      → stays c what ≡ true
      → IsInSync c s
      → IsInSync c (occur now what s)
  unfolding occur toast update dismiss open_changed fire_due fire render subscribe unsubscribe
  occur-IsInSync c now (shown props) s here sync =
      dispatch-IsInSync c now _ _ (record { heard = sync.heard; seen = sync.seen })
  occur-IsInSync c now (updated id props) s here sync = dispatch-IsInSync c now _ s sync
  occur-IsInSync c now (dismissed id) s here sync = dispatch-IsInSync c now _ s sync
  occur-IsInSync c now (opened id true) s here sync = sync
  occur-IsInSync c now (opened id false) s here sync = dispatch-IsInSync c now _ s sync
  occur-IsInSync c now (timer id) s here sync =
      fire_due_either (IsInSync c) now id s sync
        (dispatch-IsInSync c now _ _ (record { heard = sync.heard; seen = sync.seen }))
  occur-IsInSync c now (rendered d) s here sync = record {
    heard = sync.heard;
    seen = ground (arith, sync.seen, lookup-insert d c s.toasts s.views);
  }
  occur-IsInSync c now (subscribed d) s here sync = record {
    heard = listens-append c d s.listeners ∙ rw sync.heard;
    seen = sync.seen;
  }
  occur-IsInSync c now (resubscribed d) s here sync = record {
    heard = heard_again c d s.listeners sync.heard;
    seen = sync.seen;
  }
  occur-IsInSync c now (unsubscribed d) s here sync = record {
    heard = listens-remove_first c d s.listeners (ground arith) sync.heard;
    seen = sync.seen;
  }

  run-IsInSync :
      (c : ℕ) (es : List (Event N)) (s : Store N)
      → All (λ e. stays c e.what ≡ true) es
      → IsInSync c s
      → IsInSync c (run es s)
  unfolding run
  run-IsInSync c [] s here sync = sync
  run-IsInSync c (e ∷ es) s here sync =
      run-IsInSync c es (occur e.now e.what s) here.1 (occur-IsInSync c e.now e.what s here.0 sync)

  -- A component that listens from its first rendering on shows the toasts of the store after any events,
  -- until it is taken off the listeners.
  pub in_sync :
      (c : ℕ) (es : List (Event N)) (s : Store N)
      → All (λ e. stays c e.what ≡ true) es
      → let s' = run es (subscribe c (render c s)) in lookup c s'.views ≡ some s'.toasts
  unfolding render subscribe
  in_sync c es s here =
      let begun : IsInSync c (subscribe c (render c s)) = record {
        heard = listens-append c c s.listeners ∙ ground (arith, ==_refl c);
        seen = lookup-insert_self c s.toasts s.views;
      } in
      (run-IsInSync c es (subscribe c (render c s)) here begun).seen

  fire-le :
      (now : ℕ) (id : Text) (s : Store N)
      → length s.toasts ≤ toast_limit
      → length (fire now id s).toasts ≤ toast_limit
  unfolding fire dispatch
  fire-le now id s h = le_trans (length-filter _ s.toasts) h

  occur-le :
      (now : ℕ) (what : Occurrence N) (s : Store N)
      → length s.toasts ≤ toast_limit
      → length (occur now what s).toasts ≤ toast_limit
  unfolding occur toast update dismiss open_changed fire_due fire dispatch render subscribe
      unsubscribe
  occur-le now (shown props) s h = omega arith
  occur-le now (updated id props) s h = rw length-map h
  occur-le now (dismissed id) s h = rw length-map h
  occur-le now (opened id true) s h = h
  occur-le now (opened id false) s h = rw length-map h
  occur-le now (timer id) s h =
      fire_due_either (λ u. length u.toasts ≤ toast_limit) now id s h (fire-le now id s h)
  occur-le now (rendered c) s h = h
  occur-le now (subscribed c) s h = h
  occur-le now (resubscribed c) s h = h
  occur-le now (unsubscribed c) s h = h

  run-le :
      (es : List (Event N)) (s : Store N)
      → length s.toasts ≤ toast_limit
      → length (run es s).toasts ≤ toast_limit
  unfolding run
  run-le [] s h = h
  run-le (e ∷ es) s h = run-le es (occur e.now e.what s) (occur-le e.now e.what s h)

  -- After any events no more toasts are there than the limit of one.
  pub run_limit : (es : List (Event N)) → length (run es (empty_store {N = N})).toasts ≤ toast_limit
  unfolding empty_store
  run_limit es = run-le es empty_store (omega arith)
