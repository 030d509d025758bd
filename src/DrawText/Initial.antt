-- ===== src/DrawText/Initial.antt =====
-- The animation that a headline starts by itself.
use infrgate.Prelude.{◌≡◌, refl, true, not, List, [], ◌∷◌, filter, ℕ, suc}
use infrgate.Prelude.Text.{Text}
use infrgate.DrawText.{
  DelayedCall, DrawText, Event, calls_from, call_runs, interval_runs, blanks, new, effect, cleanup,
  settle_in, run_ticker_animation, pull, run_call, run_interval, step, run,
}

filter-calls_from :
    (i : ℕ) (text : Text) → filter (λ c. not c.in_context) (calls_from true i text) ≡ []
filter-calls_from i [] = refl
filter-calls_from i (c ∷ s) = filter-calls_from (suc i) s

-- nothing drawn, and no timer left
abbrev pub untouched : Text → DrawText
untouched text = record { letters = blanks text; calls = []; intervals = []; has_animated = true }

module _ (text : Text) where
  settle_in-untouched :
      (revert : List DelayedCall → List DelayedCall)
      → ((calls : List DelayedCall) → revert calls ≡ filter (λ c. not c.in_context) calls)
      → settle_in text revert ≡ untouched text
  unfolding settle_in effect cleanup new run_ticker_animation
  settle_in-untouched revert kills = rw (kills, cleanup) (rw (filter-calls_from 0 text) refl)

  run-untouched : (es : List Event) → run text es (untouched text) ≡ untouched text
  unfolding run step run_call run_interval pull
  run-untouched [] = refl
  run-untouched (call_runs k random ∷ es) = run-untouched es
  run-untouched (interval_runs k random ∷ es) = run-untouched es

  -- If gsap's `revert` stops the delayed calls of its context and no other, then a headline shows nothing
  -- before the mouse first enters it, whatever runs: the cleanup of the effect stops the animation that
  -- the effect has started, and the effect starts no other, since it has animated.
  pub blank_until_hover :
      (revert : List DelayedCall → List DelayedCall) (es : List Event)
      → ((calls : List DelayedCall) → revert calls ≡ filter (λ c. not c.in_context) calls)
      → run text es (settle_in text revert) ≡ untouched text
  blank_until_hover revert es kills = rw (settle_in-untouched revert kills) (run-untouched es)
