-- ===== src/DrawText/Tests.antt =====
-- A headline of two letters, and the theorems on it there.
use infrgate.Prelude.{
  ◌+◌, ◌*◌, ◌^◌, ◌≡◌, ◌≤◌, ◌⊎◌, refl, arith, true, not, some, List, [], ◌∷◌, filter, length, map,
}
use infrgate.Prelude.Text.{Text, codes}
use infrgate.DrawText.{
  DelayedCall, DrawText, Letter, Event, call_runs, interval_runs, new, effect, cleanup, settle_in,
  run_ticker_animation, handle_mouse_enter, pull, modify, any_flip_char, start_flipping, flip,
  run_call, run_interval, step, run,
}
use infrgate.DrawText.Drawing.{waits, letter_at, drawn}
use infrgate.DrawText.Ending.{remaining, IsRun, hover_draws}
use infrgate.DrawText.Initial.{untouched, blank_until_hover}

abbrev text : Text
text = codes "HI"

-- what the documentation of `ctx.revert()` promises
abbrev revert : List DelayedCall → List DelayedCall
revert calls = filter (λ c. not c.in_context) calls

unfoldable ready : DrawText
unfolding settle_in effect cleanup new run_ticker_animation
ready = settle_in text revert

-- The second letter starts first, and both flip.
abbrev events : List Event
events = call_runs 1 0 ∷ interval_runs 0 0 ∷ call_runs 0 0 ∷ interval_runs 1 (2 ^ 52) ∷ []

displays_run :
    map (λ (l : Letter). l.display) ((run text events (handle_mouse_enter text ready)).letters)
    ≡ codes "V" ∷ codes "A" ∷ []
unfolding ready run step run_call run_interval pull start_flipping flip modify any_flip_char
    handle_mouse_enter run_ticker_animation
displays_run = refl

hover_draws_example :
    let ended = run text events (handle_mouse_enter text ready) in
    (length events + remaining ended ≤ 14 * (length ready.calls + length text))
    × ((letter_at 1 ended.letters ≡ some (drawn text 1)) ⊎ (waits 1 ended ≡ true))
unfolding ready run step run_call run_interval pull start_flipping flip modify any_flip_char
    handle_mouse_enter run_ticker_animation IsRun
hover_draws_example =
    hover_draws text 1 events ready (omega arith) refl
      (refl, omega arith, (refl, omega arith, (refl, omega arith, (refl, omega arith, tt))))

blank_until_hover_example : run text events (settle_in text revert) ≡ untouched text
blank_until_hover_example = blank_until_hover text revert events (λ calls. refl)
