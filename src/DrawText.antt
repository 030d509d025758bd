-- ===== src/DrawText.antt =====
-- Frontend/components/draw-text.tsx: a headline whose letters flip one after the other. The delayed calls
-- and the intervals are the event loop's, and run in any order: each event names the one that runs by
-- its place, and a place where there is none runs nothing. The three arrays of the letters' states are
-- one list of letters. `revert`, what gsap's `ctx.revert()` makes of the delayed calls, is a parameter.
-- `Math.random()` gives a number below 2 ^ 53, in units of 2 ^ -53. Delays and markup are left out, the
-- text does not change, and the container is there whenever the effect runs.
pub mod Drawing
pub mod Ending
pub mod Initial
pub mod Tests
use infrgate.Prelude.{
  ℕ, zero, suc, ◌+◌, ◌*◌, ◌/◌, ◌^◌, Bool, true, false, Option, none, some, List, [], ◌∷◌, ◌++◌, map,
  length, leb, if◌then◌else◌,
}
use infrgate.Prelude.Text.{Text, codes}

-- `displayChars`, `activeIndices` and `flippingIndices` at an index
pub record Letter : Type 0 where
  pub display : Text
  pub active : Bool
  pub flipping : Bool

-- a call of `gsap.delayedCall` that has not run yet, and whether it was made in the effect's context
pub record DelayedCall : Type 0 where
  pub index : ℕ
  pub in_context : Bool

-- a running interval
pub record FlipInterval : Type 0 where
  pub index : ℕ
  pub flip_count : ℕ
  pub max_flips : ℕ

pub record DrawText : Type 0 where
  pub letters : List Letter
  pub calls : List DelayedCall
  pub intervals : List FlipInterval
  pub has_animated : Bool

-- which timer runs, by its place, and the draw that it makes
pub data Event : Type 0 where
  call_runs : ℕ → ℕ → Event
  interval_runs : ℕ → ℕ → Event

abbrev pub flip_chars : Text
flip_chars = codes "ABCDEFGHIJKLMNOPQRSTUVWXYZ0123456789-+#@$%"

abbrev pub char_at : Text → ℕ → Text
char_at [] i = []
char_at (c ∷ s) zero = c ∷ []
char_at (c ∷ s) (suc i) = char_at s i

abbrev pub blank : Letter
blank = record { display = []; active = false; flipping = false }

-- the letters before anything is drawn
abbrev pub blanks : Text → List Letter
blanks [] = []
blanks (c ∷ s) = blank ∷ blanks s

-- `characters.forEach(…)`, from an index on
abbrev pub calls_from : Bool → ℕ → Text → List DelayedCall
calls_from in_context i [] = []
calls_from in_context i (c ∷ s) =
    (record { index = i; in_context = in_context }) ∷ calls_from in_context (suc i) s

-- `next[index] = …`
unfoldable pub modify : ℕ → (Letter → Letter) → List Letter → List Letter
modify i f [] = []
modify zero f (l ∷ ls) = f l ∷ ls
modify (suc i) f (l ∷ ls) = l ∷ modify i f ls

-- the element at a place, and the others
unfoldable pub pull {ℓ} : {A : Type ℓ} → ℕ → List A → Option (A × List A)
pull k [] = none
pull zero (a ∷ as') = some (a, as')
pull (suc k) (a ∷ as') = elim (pull k as') [ none ↦ none | some (b, rest) ↦ some (b, a ∷ rest) ]

-- 8 + Math.floor(Math.random() * 6)
abbrev pub max_flips_of : ℕ → ℕ
max_flips_of random = 8 + random * 6 / 2 ^ 53

-- flipChars[Math.floor(Math.random() * flipChars.length)]
unfoldable pub any_flip_char : ℕ → Text
any_flip_char random = char_at flip_chars (random * length flip_chars / 2 ^ 53)

module _ (text : Text) where
  -- the first rendering
  unfoldable pub new : DrawText
  new = record { letters = blanks text; calls = []; intervals = []; has_animated = false }

  -- `runTickerAnimation`. The delayed calls of an earlier run are still there.
  unfoldable pub run_ticker_animation : Bool → DrawText → DrawText
  run_ticker_animation in_context s = record s {
    letters = blanks text;
    calls = s.calls ++ calls_from in_context 0 text;
    intervals = [];
  }

  -- the effect: `runTickerAnimation` within the context
  unfoldable pub effect : DrawText → DrawText
  unfolding run_ticker_animation
  effect s =
      if s.has_animated then s else record (run_ticker_animation true s) { has_animated = true }

  -- the cleanup of the effect's first run
  unfoldable pub cleanup : (List DelayedCall → List DelayedCall) → DrawText → DrawText
  cleanup revert s = record s { calls = revert s.calls; intervals = [] }

  -- The effect depends on `hasAnimated`, which it sets, and on `runTickerAnimation`, which each rendering
  -- makes anew, so that the rendering after its first run cleans it up and runs it again. Once it has
  -- animated, the effect returns early and leaves no cleanup.
  unfoldable pub settle_in : (List DelayedCall → List DelayedCall) → DrawText
  unfolding new effect cleanup
  settle_in revert = effect (cleanup revert (effect new))

  unfoldable pub handle_mouse_enter : DrawText → DrawText
  unfolding run_ticker_animation
  handle_mouse_enter s = if s.has_animated then run_ticker_animation false s else s

  -- the function of a delayed call
  unfoldable pub start_flipping : ℕ → DelayedCall → DrawText → DrawText
  unfolding modify
  start_flipping random call s = record s {
    letters = modify call.index (λ l. record l { flipping = true }) s.letters;
    intervals =
        s.intervals
        ++ (record { index = call.index; flip_count = 0; max_flips = max_flips_of random }) ∷ [];
  }

  -- the function of an interval, which is the last of the given ones if it goes on
  unfoldable pub flip : ℕ → FlipInterval → DrawText → DrawText
  unfolding modify any_flip_char
  flip random interval s =
      if leb interval.max_flips (suc interval.flip_count)
      then record s {
        letters =
            modify interval.index
              (λ l. record {
                display = char_at text interval.index;
                active = true;
                flipping = false;
              })
              s.letters;
      }
      else record s {
        letters =
            modify interval.index (λ l. record l { display = any_flip_char random }) s.letters;
        intervals = s.intervals ++ (record interval { flip_count = suc interval.flip_count }) ∷ [];
      }

  -- the call, or the interval, at a place runs
  unfoldable pub run_call : ℕ → ℕ → DrawText → DrawText
  unfolding start_flipping pull
  run_call k random s = elim (pull k s.calls) [
    | none ↦ s
    | some (call, rest) ↦ start_flipping random call (record s { calls = rest })
  ]

  unfoldable pub run_interval : ℕ → ℕ → DrawText → DrawText
  unfolding flip pull
  run_interval k random s = elim (pull k s.intervals) [
    | none ↦ s
    | some (interval, rest) ↦ flip random interval (record s { intervals = rest })
  ]

  unfoldable pub step : Event → DrawText → DrawText
  unfolding run_call run_interval
  step (call_runs k random) s = run_call k random s
  step (interval_runs k random) s = run_interval k random s

  unfoldable pub run : List Event → DrawText → DrawText
  unfolding step
  run [] s = s
  run (e ∷ es) s = run es (step e s)
