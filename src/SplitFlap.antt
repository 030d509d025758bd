-- ===== src/SplitFlap.antt =====
-- Frontend/components/split-flap-text.tsx, `SplitFlapText`: a text whose characters flip on tiles. A tile
-- takes its props, and its timers run in the order in which they are due, at the time that they are
-- due; times are whole milliseconds, and the rounding of 0.15 is left out. `Math.random()` gives a
-- number below 2 ^ 53, in units of 2 ^ -53. Markup and styles are left out. The sound of a click is
-- modelled in Audio.
pub mod Audio
pub mod Sound
pub mod Settling
pub mod Tests
use infrgate.Prelude.{
  ℕ, zero, suc, ◌+◌, ◌*◌, ◌/◌, ◌%◌, ◌^◌, Bool, true, false, not, ◌&&◌, ◌||◌, Option, none, some,
  List, [], ◌∷◌, map, leb, nat_eq, if◌then◌else◌,
}
use infrgate.Prelude.Text.{Text, codes}
use infrgate.Prelude.Eq.{◌==◌, List-eq}

abbrev characters : Text → List Text
characters [] = []
characters (c ∷ s) = (c ∷ []) ∷ characters s

abbrev pub charset : List Text
charset = characters (codes "ABCDEFGHIJKLMNOPQRSTUVWXYZ0123456789")

abbrev pub includes : List Text → Text → Bool
includes [] char = false
includes (t ∷ ts) char = t == char || includes ts char

abbrev pub space : Text
space = codes " "

abbrev element : List Text → ℕ → Text
element [] i = space
element (t ∷ ts) zero = t
element (t ∷ ts) (suc i) = element ts i

-- CHARSET[Math.floor(Math.random() * CHARSET.length)]
unfoldable pub any_char : ℕ → Text
any_char random = element charset (random * 36 / 2 ^ 53)

-- the props of a tile, without the sound
pub record SplitFlapCharProps : Type 0 where
  pub char : Text
  pub index : ℕ
  pub animation_key : ℕ
  pub skip_entrance : Bool
  pub speed : ℕ
  pub has_sound : Bool

-- `timeout` and `interval` hold the times at which they are due. `clicks` counts the calls of
-- `playClick`.
pub record SplitFlapChar : Type 0 where
  pub current_char : Text
  pub is_settled : Bool
  pub timeout : Option ℕ
  pub interval : Option ℕ
  pub flip_index : ℕ
  pub has_started_settling : Bool
  pub clicks : ℕ

abbrev pub display_char : SplitFlapCharProps → Text
display_char p = if includes charset p.char then p.char else space

abbrev pub is_space : SplitFlapCharProps → Bool
is_space p = p.char == space

-- tileDelay * 400 or tileDelay * 800, with a tileDelay of 0.15 * index
abbrev pub start_delay : SplitFlapCharProps → ℕ
start_delay p = if p.skip_entrance then 60 * p.index else 120 * p.index

abbrev pub settle_threshold : SplitFlapCharProps → ℕ
settle_threshold p = 8 + p.index * 3

-- the first rendering
unfoldable pub mount : SplitFlapCharProps → SplitFlapChar
mount p = record {
  current_char = if p.skip_entrance then display_char p else space;
  is_settled = p.skip_entrance;
  timeout = none;
  interval = none;
  flip_index = 0;
  has_started_settling = false;
  clicks = 0;
}

-- the effect's cleanup
unfoldable pub cleanup : SplitFlapChar → SplitFlapChar
cleanup s = record s { timeout = none; interval = none }

-- the effect
unfoldable pub animate : SplitFlapCharProps → ℕ → ℕ → SplitFlapChar → SplitFlapChar
unfolding cleanup any_char
animate p now random s =
    if is_space p
    then record (cleanup s) { current_char = space; is_settled = true }
    else record s {
      current_char = any_char random;
      is_settled = false;
      timeout = some (now + start_delay p);
      interval = none;
      flip_index = 0;
      has_started_settling = false;
    }

abbrev click : SplitFlapCharProps → Bool → ℕ → ℕ
click p wanted n = if wanted && p.has_sound then suc n else n

-- the interval's function, due at a time
unfoldable pub flip : SplitFlapCharProps → ℕ → ℕ → SplitFlapChar → SplitFlapChar
unfolding any_char
flip p due random s =
    if leb (settle_threshold p) s.flip_index && not s.has_started_settling
    then record s {
      has_started_settling = true;
      interval = none;
      current_char = display_char p;
      is_settled = true;
      clicks = click p true s.clicks;
    }
    else record s {
      interval = some (due + p.speed);
      current_char = any_char random;
      clicks = click p (nat_eq (s.flip_index % 2) 0) s.clicks;
      flip_index = suc s.flip_index;
    }

-- the timer that is due next
unfoldable pub fire_next : SplitFlapCharProps → ℕ → SplitFlapChar → SplitFlapChar
unfolding flip
fire_next p random s = elim s.timeout [
  | some due ↦ record s { timeout = none; interval = some (due + p.speed) }
  | none ↦ elim s.interval [ none ↦ s | some due ↦ flip p due random s ]
]

-- one draw for each timer that runs
unfoldable pub run : SplitFlapCharProps → List ℕ → SplitFlapChar → SplitFlapChar
run p [] s = s
run p (r ∷ rs) s = run p rs (fire_next p r s)

-- `SplitFlapTextInner`: the hover restarts the tiles, and a second after the mounting the entrance is
-- over.
pub record SplitFlapText : Type 0 where
  pub animation_key : ℕ
  pub has_initialized : Bool

unfoldable pub new : SplitFlapText
new = record { animation_key = 0; has_initialized = false }

unfoldable pub handle_mouse_enter : SplitFlapText → SplitFlapText
handle_mouse_enter s = record s { animation_key = suc s.animation_key }

-- the timer of the first effect
unfoldable pub initialize : SplitFlapText → SplitFlapText
initialize s = record s { has_initialized = true }

-- the tiles of a text; `char.toUpperCase()` is the language's
module _ (to_upper_case : Text → Text) (speed : ℕ) (has_sound : Bool) where
  tiles_from : ℕ → Text → SplitFlapText → List SplitFlapCharProps
  tiles_from index [] s = []
  tiles_from index (c ∷ text) s =
      (record {
        char = to_upper_case (c ∷ []);
        index = index;
        animation_key = s.animation_key;
        skip_entrance = s.has_initialized;
        speed = speed;
        has_sound = has_sound;
      })
      ∷ tiles_from (suc index) text s

  unfoldable pub tiles : Text → SplitFlapText → List SplitFlapCharProps
  unfolding tiles_from
  tiles text s = tiles_from 0 text s
