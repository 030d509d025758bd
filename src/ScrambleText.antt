-- ===== src/ScrambleText.antt =====
-- Frontend/components/scramble-text.tsx: a text that is scrambled and then locks in from the left. The
-- tween is gsap's: it calls `onUpdate` with a progress and `onComplete` at its end, as events of the
-- model. A progress and a draw of `Math.random()` are whole numbers of 2 ^ -53, a draw below 2 ^ 53;
-- a frame draws by the position of the character. Markup is left out.
pub mod Locking
pub mod Hover
pub mod Tests
use infrgate.Prelude.{
  ℕ, zero, suc, ◌*◌, ◌/◌, ◌^◌, Bool, true, false, not, ◌&&◌, ◌||◌, Option, none, some, List, [],
  ◌∷◌, length, nat_eq, if◌then◌else◌,
}
use infrgate.Prelude.Text.{Text, codes}
use infrgate.Prelude.Eq.{◌==◌, List-eq}

abbrev pub glyphs : Text
glyphs = codes "!@#$%^&*()_+-=<>?/\\[]{}Xx"

abbrev element : Text → ℕ → ℕ
element [] i = 0
element (c ∷ s) zero = c
element (c ∷ s) (suc i) = element s i

-- GLYPHS[Math.floor(Math.random() * GLYPHS.length)]
unfoldable pub any_glyph : ℕ → ℕ
any_glyph random = element glyphs (random * length glyphs / 2 ^ 53)

abbrev pub has : ℕ → List ℕ → Bool
has i [] = false
has i (j ∷ set) = nat_eq j i || has i set

-- `for (let i = 0; i < n; i++) lockedIndices.add(i)`
unfoldable pub lock_below : ℕ → List ℕ → List ℕ
lock_below zero set = set
lock_below (suc n) set =
    let locked = lock_below n set in if has n locked then locked else n ∷ locked

-- Math.floor(progress * totalChars)
abbrev pub num_locked : ℕ → Text → ℕ
num_locked progress text = progress * length text / 2 ^ 53

-- `finalChars.map(…).join("")`, from a position on
unfoldable pub display_from : (ℕ → ℕ) → List ℕ → ℕ → Text → Text
display_from draws locked i [] = []
display_from draws locked i (c ∷ chars) =
    (if has i locked then c else any_glyph (draws i)) ∷ display_from draws locked (suc i) chars

-- a running animation: what `runScrambleAnimation` closes over
pub record Tween : Type 0 where
  pub text : Text
  pub locked_indices : List ℕ

unfoldable pub run_scramble_animation : Text → Tween
run_scramble_animation text = record { text = text; locked_indices = [] }

-- `onUpdate`: the tween, and the text that it displays
unfoldable pub on_update : ℕ → (ℕ → ℕ) → Tween → Tween × Text
on_update progress draws t =
    let locked = lock_below (num_locked progress t.text) t.locked_indices in
    (record t { locked_indices = locked }, display_from draws locked 0 t.text)

-- the start of an animation
unfoldable pub scrambled : (ℕ → ℕ) → Text → Text
scrambled draws text = display_from draws [] 0 text

-- `ScrambleText`. The timer holds the text of the first rendering.
pub record ScrambleText : Type 0 where
  pub text : Text
  pub display_text : Text
  pub has_animated : Bool
  pub timeout : Option Text
  pub animation : Option Tween

-- the first rendering, and its effect: a text that is empty is not animated
unfoldable pub mount : (ℕ → ℕ) → Text → ScrambleText
mount draws [] = record {
  text = [];
  display_text = [];
  has_animated = false;
  timeout = none;
  animation = none;
}
mount draws (c ∷ text) = record {
  text = c ∷ text;
  display_text = scrambled draws (c ∷ text);
  has_animated = false;
  timeout = some (c ∷ text);
  animation = none;
}

-- the second effect, which runs after each rendering that changes what it names
unfoldable pub synchronise : ScrambleText → ScrambleText
synchronise s =
    if s.has_animated && not (s.display_text == s.text)
    then record s { display_text = s.text }
    else s

-- the timer
unfoldable pub begin : ScrambleText → ScrambleText
unfolding run_scramble_animation
begin s = elim s.timeout [
  | none ↦ s
  | some text ↦ record s { timeout = none; animation = some (run_scramble_animation text) }
]

unfoldable pub update : ℕ → (ℕ → ℕ) → ScrambleText → ScrambleText
unfolding on_update
update progress draws s = elim s.animation [
  | none ↦ s
  | some t ↦
      let (t', shown) = on_update progress draws t in
      record s { animation = some t'; display_text = shown }
]

unfoldable pub complete : ScrambleText → ScrambleText
unfolding synchronise
complete s = elim s.animation [
  | none ↦ s
  | some t ↦ synchronise (record s { animation = none; display_text = t.text; has_animated = true })
]

-- the cleanup of the first effect
unfoldable pub unmount : ScrambleText → ScrambleText
unmount s = record s { timeout = none; animation = none }

unfoldable pub change_text : Text → ScrambleText → ScrambleText
unfolding synchronise
change_text text s = synchronise (record s { text = text })

-- `ScrambleTextOnHover`
pub record ScrambleTextOnHover : Type 0 where
  pub text : Text
  pub display_text : Text
  pub is_animating : Bool
  pub tween : Option Tween

unfoldable pub new_on_hover : Text → ScrambleTextOnHover
new_on_hover text = record { text = text; display_text = text; is_animating = false; tween = none }

unfoldable pub handle_mouse_enter : (ℕ → ℕ) → ScrambleTextOnHover → ScrambleTextOnHover
unfolding run_scramble_animation scrambled
handle_mouse_enter draws s = if s.is_animating then s else record s {
  is_animating = true;
  display_text = scrambled draws s.text;
  tween = some (run_scramble_animation s.text);
}

unfoldable pub update_on_hover : ℕ → (ℕ → ℕ) → ScrambleTextOnHover → ScrambleTextOnHover
unfolding on_update
update_on_hover progress draws s = elim s.tween [
  | none ↦ s
  | some t ↦
      let (t', shown) = on_update progress draws t in
      record s { tween = some t'; display_text = shown }
]

-- a tween that is over calls nothing any more: the model drops it
unfoldable pub complete_on_hover : ScrambleTextOnHover → ScrambleTextOnHover
complete_on_hover s = elim s.tween [
  | none ↦ s
  | some t ↦ record s { tween = none; display_text = t.text; is_animating = false }
]

-- a new `text`, and the effect on it
unfoldable pub change_text_on_hover : Text → ScrambleTextOnHover → ScrambleTextOnHover
change_text_on_hover text s =
    if s.is_animating
    then record s { text = text }
    else record s { text = text; display_text = text }
