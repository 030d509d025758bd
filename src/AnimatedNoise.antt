-- ===== src/AnimatedNoise.antt =====
-- Frontend/components/animated-noise.tsx: the noise drawn on a canvas of half the element's size, on every
-- second frame. `createImageData`, and what a clamped array keeps of `Math.random() * 255`, are the
-- browser's, and parameters. Markup is left out.
pub mod Noise
pub mod Frames
pub mod Tests
use infrgate.Prelude.{
  ℕ, zero, suc, ◌+◌, ◌*◌, ◌/◌, ◌%◌, ◌≡◌, ◌<◌, Bool, true, false, Option, none, some, List, [], ◌∷◌,
  length, nat_eq, ltb, if◌then◌else◌,
}

-- What the browser does for the component.
pub record Browser : Type 0 where
  -- `ctx.createImageData(width, height).data`, or the `IndexSizeError` that it throws
  pub create_image_data : ℕ → ℕ → Option (List ℕ)
  -- the byte that is kept of `Math.random() * 255`, by the draw
  pub clamped : ℕ → ℕ

-- `createImageData` gives four bytes for each pixel, and throws when one side is 0.
pub record IsBrowser (b : Browser) : Type 0 where
  pub image_data : ℕ → ℕ → List ℕ
  pub create_image_data-suc :
      (w h : ℕ) → b.create_image_data (suc w) (suc h) ≡ some (image_data (suc w) (suc h))
  pub length-image_data : (w h : ℕ) → length (image_data w h) ≡ 4 * (w * h)
  pub no_width : (h : ℕ) → b.create_image_data 0 h ≡ none
  pub no_height : (w : ℕ) → b.create_image_data w 0 ≡ none
  pub clamped_byte : (draw : ℕ) → b.clamped draw < 256

-- `data[i] = v` of a typed array, which ignores an index out of range
unfoldable pub store : ℕ → ℕ → List ℕ → List ℕ
store i v [] = []
store zero v (x ∷ xs) = v ∷ xs
store (suc i) v (x ∷ xs) = x ∷ store i v xs

-- the loop's body
unfoldable pub write_pixel : ℕ → ℕ → List ℕ → List ℕ
unfolding store
write_pixel i value bytes =
    store (i + 3) 255 (store (i + 2) value (store (i + 1) value (store i value bytes)))

-- the `for`, of which each turn takes the next draw
unfoldable pub noise_loop : Browser → (ℕ → ℕ) → ℕ → ℕ → ℕ → List ℕ → Option (List ℕ)
unfolding write_pixel
noise_loop b draws zero k i bytes = none
noise_loop b draws (suc fuel) k i bytes =
    let next =
      noise_loop b draws fuel (suc k) (i + 4) (write_pixel i (b.clamped (draws k)) bytes) in
    if ltb i (length bytes) then next else some bytes

-- The image that `generateNoise` puts on the canvas, or none if `createImageData` throws. One turn for
-- each byte and one more are enough.
unfoldable pub generate_noise : Browser → (ℕ → ℕ) → ℕ → ℕ → Option (List ℕ)
unfolding noise_loop
generate_noise b draws width height = elim (b.create_image_data width height) [
  | none ↦ none
  | some bytes ↦ noise_loop b draws (suc (length bytes)) 0 0 bytes
]

-- the canvas and the effect's variables: the image that was put last, `frame`, and whether a frame is
-- requested and the window listened to
pub record AnimatedNoise : Type 0 where
  pub width : ℕ
  pub height : ℕ
  pub image : Option (List ℕ)
  pub frame : ℕ
  pub requested : Bool
  pub listening : Bool

-- a canvas whose size is set is cleared
unfoldable pub resize : ℕ → ℕ → AnimatedNoise → AnimatedNoise
resize offset_width offset_height s = record s {
  width = offset_width / 2;
  height = offset_height / 2;
  image = none;
}

-- `animate`: what `generateNoise` throws, it throws, before it requests a frame.
unfoldable pub animate : Browser → (ℕ → ℕ) → AnimatedNoise → AnimatedNoise
unfolding generate_noise
animate b draws s =
    let counted = record s { frame = suc s.frame } in
    if nat_eq (counted.frame % 2) 0
    then (elim (generate_noise b draws s.width s.height) [
      | none ↦ counted
      | some bytes ↦ record counted { image = some bytes; requested = true }
    ])
    else record counted { requested = true }

-- a canvas as the browser makes it
abbrev pub canvas : AnimatedNoise
canvas = record {
  width = 300;
  height = 150;
  image = none;
  frame = 0;
  requested = false;
  listening = false;
}

-- the effect
unfoldable pub mount : Browser → (ℕ → ℕ) → ℕ → ℕ → AnimatedNoise
unfolding resize animate
mount b draws offset_width offset_height =
    let sized = resize offset_width offset_height canvas in
    animate b draws (record sized { listening = true })

-- its cleanup
unfoldable pub unmount : AnimatedNoise → AnimatedNoise
unmount s = record s { listening = false; requested = false }

-- the window's `resize`, with the element's size then; a frame, with its draws; the end of the component
pub data Event : Type 0 where
  resized : ℕ → ℕ → Event
  frame_due : (ℕ → ℕ) → Event
  unmounted : Event

unfoldable pub step : Browser → Event → AnimatedNoise → AnimatedNoise
unfolding resize animate unmount
step b (resized offset_width offset_height) s =
    if s.listening then resize offset_width offset_height s else s
step b (frame_due draws) s =
    if s.requested then animate b draws (record s { requested = false }) else s
step b unmounted s = unmount s

unfoldable pub run : Browser → List Event → AnimatedNoise → AnimatedNoise
unfolding step
run b [] s = s
run b (e ∷ es) s = run b es (step b e s)
