-- ===== src/DrawText/Ending.antt =====
-- How often the timers can run.
use infrgate.Prelude.{
  ℕ, zero, suc, ◌+◌, ◌*◌, ◌^◌, ◌-◌, ◌<◌, ◌≤◌, ◌≡◌, refl, ap, ◌⊎◌, inl, inr, Bool, true, false, some,
  List, [], ◌∷◌, ◌++◌, length, length-append, leb, arith, Bool-cases, Option-cases,
}
use infrgate.Prelude.Text.{Text}
use infrgate.DrawText.Drawing.{
  waits, letter_at, drawn, run-IsUnderWay, handle_mouse_enter-IsUnderWay,
}
use infrgate.DrawText.{
  calls_from, run_ticker_animation, handle_mouse_enter, FlipInterval, DrawText, Event, call_runs,
  interval_runs, max_flips_of, pull, start_flipping, flip, run_call, run_interval, step, run,
}

abbrev pub random_of : Event → ℕ
random_of (call_runs k random) = random
random_of (interval_runs k random) = random

-- The event names a timer that is left.
abbrev pub is_pending : Event → DrawText → Bool
is_pending (call_runs k random) s = leb (suc k) (length s.calls)
is_pending (interval_runs k random) s = leb (suc k) (length s.intervals)

-- how often an interval runs at most
abbrev runs_of : FlipInterval → ℕ
runs_of t = 1 + (t.max_flips - suc t.flip_count)

abbrev runs : List FlipInterval → ℕ
runs [] = 0
runs (t ∷ ts) = runs_of t + runs ts

runs-append : (ts us : List FlipInterval) → runs (ts ++ us) ≡ runs ts + runs us
runs-append [] us = omega arith
runs-append (t ∷ ts) us = omega (arith, runs-append ts us)

pull-runs :
    (k : ℕ) (ts : List FlipInterval) (t : FlipInterval) (rest : List FlipInterval)
    → pull k ts ≡ some (t, rest)
    → runs ts ≡ runs_of t + runs rest
unfolding pull
pull-runs k [] t rest e = cc
pull-runs zero (x ∷ xs) t rest e = ground arith
pull-runs (suc k) (x ∷ xs) t rest e = elim (Option-cases (pull k xs)) [
  | inl gone ↦ cc (rw (gone, pull) at e)
  | inr ((b, others), found) ↦ ground (arith, pull-runs k xs b others found, e, found)
]

pull-found {ℓ} :
    {A : Type ℓ} (k : ℕ) (xs : List A)
    → leb (suc k) (length xs) ≡ true
    → (p : A × List A) × (pull k xs ≡ some p) × (length xs ≡ suc (length (p.1)))
unfolding pull
pull-found k [] h = ground arith
pull-found zero (x ∷ xs) h = ((x, xs), refl, refl)
pull-found (suc k) (x ∷ xs) h =
    let ((a, rest), found, size) = pull-found k xs (ground arith) in
    ((a, x ∷ rest), rw found refl, ap suc size)

-- how often the timers that are left run at most
abbrev pub remaining : DrawText → ℕ
remaining s = 14 * length s.calls + runs s.intervals

max_flips_of_bound : (random : ℕ) → random < 2 ^ 53 → max_flips_of random ≤ 13
max_flips_of_bound random h = omega arith

length-calls_from :
    (in_context : Bool) (i : ℕ) (text : Text) → length (calls_from in_context i text) ≡ length text
length-calls_from in_context i [] = refl
length-calls_from in_context i (c ∷ s) = ap suc (length-calls_from in_context (suc i) s)

module _ (text : Text) where
  -- Each of the events runs a timer that is left.
  unfoldable pub IsRun : List Event → DrawText → Type 0
  IsRun [] s = Unit
  IsRun (e ∷ es) s = (is_pending e s ≡ true) × (random_of e < 2 ^ 53) × IsRun es (step text e s)

  run_call-remaining :
      (k random : ℕ) (s : DrawText)
      → random < 2 ^ 53
      → leb (suc k) (length s.calls) ≡ true
      → remaining (run_call text k random s) < remaining s
  unfolding run_call start_flipping
  run_call-remaining k random s h pending =
      let ((call, rest), found, size) = pull-found k s.calls pending in
      let started : FlipInterval = record {
        index = call.index;
        flip_count = 0;
        max_flips = max_flips_of random;
      } in
      let more = runs-append s.intervals (started ∷ []) in
      let few = max_flips_of_bound random h in
      rw (found, run_call) (ground (arith, size, more, few))

  run_interval-remaining :
      (k random : ℕ) (s : DrawText)
      → leb (suc k) (length s.intervals) ≡ true
      → remaining (run_interval text k random s) < remaining s
  unfolding run_interval flip
  run_interval-remaining k random s pending =
      let ((t, rest), found, _) = pull-found k s.intervals pending in
      let before = pull-runs k s.intervals t rest found in
      let again : FlipInterval = record t { flip_count = suc t.flip_count } in
      let more = runs-append rest (again ∷ []) in
      rw (found, run_interval)
        (elim (Bool-cases (leb t.max_flips (suc t.flip_count))) [
          | inl over ↦ rw over (ground (arith, before))
          | inr on ↦ rw on (ground (arith, before, more, on))
        ])

  step-remaining :
      (e : Event) (s : DrawText)
      → random_of e < 2 ^ 53
      → is_pending e s ≡ true
      → remaining (step text e s) < remaining s
  unfolding step
  step-remaining (call_runs k random) s h pending = run_call-remaining k random s h pending
  step-remaining (interval_runs k random) s h pending = run_interval-remaining k random s pending

  run-remaining :
      (es : List Event) (s : DrawText)
      → IsRun es s
      → length es + remaining (run text es s) ≤ remaining s
  unfolding run IsRun
  run-remaining [] s h = omega arith
  run-remaining (e ∷ es) s (pending, h, rest) =
      omega (arith, step-remaining e s h pending, run-remaining es (step text e s) rest)

  handle_mouse_enter-remaining :
      (s : DrawText)
      → s.has_animated ≡ true
      → remaining (handle_mouse_enter text s) ≡ 14 * (length s.calls + length text)
  unfolding handle_mouse_enter run_ticker_animation
  handle_mouse_enter-remaining s ready =
      rw (ready, handle_mouse_enter)
        (omega
          (arith, length-append s.calls (calls_from false 0 text), length-calls_from false 0 text))

  -- Once the mouse enters a headline that has animated, its timers run out, in whatever order they run:
  -- the runs so far and the ones that may be left are never more than 14 for each letter and for each
  -- delayed call that was left before. Until then each letter has a timer left or is drawn: it shows its
  -- character as an active one, which does not flip.
  pub hover_draws :
      (i : ℕ) (es : List Event) (s : DrawText)
      → i < length text
      → s.has_animated ≡ true
      → IsRun es (handle_mouse_enter text s)
      → let ended = run text es (handle_mouse_enter text s) in
        (length es + remaining ended ≤ 14 * (length s.calls + length text))
        × ((letter_at i ended.letters ≡ some (drawn text i)) ⊎ (waits i ended ≡ true))
  hover_draws i es s h ready r =
      let hovered = handle_mouse_enter text s in
      let under_way = handle_mouse_enter-IsUnderWay text i s h ready in
      (
        omega (arith, run-remaining es hovered r, handle_mouse_enter-remaining s ready),
        (run-IsUnderWay text i es hovered under_way).ends,
      )
