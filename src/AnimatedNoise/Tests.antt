-- ===== src/AnimatedNoise/Tests.antt =====
-- A browser whose images are blank, and the theorems on small canvases there.
use infrgate.Prelude.{
  ℕ, zero, suc, ◌*◌, ◌/◌, ◌%◌, ◌^◌, ◌≡◌, refl, true, false, Option, none, some, List, [], ◌∷◌, inl,
  arith, length,
}
use infrgate.AnimatedNoise.{Browser, IsBrowser, AnimatedNoise, resized, frame_due, mount, run}
use infrgate.AnimatedNoise.Frames.{draws_every_other, ends_without_pixels}

abbrev zeros : ℕ → List ℕ
zeros zero = []
zeros (suc n) = 0 ∷ zeros n

length-zeros : (n : ℕ) → length (zeros n) ≡ n
length-zeros zero = refl
length-zeros (suc n) = omega (arith, length-zeros n)

abbrev blank : ℕ → ℕ → Option (List ℕ)
blank zero h = none
blank (suc w) zero = none
blank (suc w) (suc h) = some (zeros (4 * (suc w * suc h)))

blank-no_height : (w : ℕ) → blank w 0 ≡ none
blank-no_height zero = refl
blank-no_height (suc w) = refl

abbrev browser : Browser
browser = record { create_image_data = blank; clamped = λ draw. draw * 255 / 2 ^ 53 % 256 }

browser-IsBrowser : IsBrowser browser
browser-IsBrowser = record {
  image_data = λ w h. zeros (4 * (w * h));
  create_image_data-suc = λ w h. refl;
  length-image_data = λ w h. length-zeros (4 * (w * h));
  no_width = λ h. refl;
  no_height = blank-no_height;
  clamped_byte = λ draw. omega arith;
}

abbrev dark : ℕ → ℕ
dark k = 0

abbrev grey : ℕ → ℕ
grey k = 2 ^ 52

-- The element grows between two frames.
draws_every_other_example :
    (run browser (frame_due grey ∷ []) (
      run browser
        (frame_due dark ∷ frame_due dark ∷ resized 4 2 ∷ [])
        (mount browser dark 2 2))).image
    ≡ some (127 ∷ 127 ∷ 127 ∷ 255 ∷ 127 ∷ 127 ∷ 127 ∷ 255 ∷ [])
unfolding mount run
draws_every_other_example =
    draws_every_other browser browser-IsBrowser dark grey 2 2
      (frame_due dark ∷ frame_due dark ∷ resized 4 2 ∷ []) (omega arith) (omega arith)
      (tt, (tt, ((omega arith, omega arith), tt)))

-- an element that is hidden while the first frame draws
abbrev hidden : AnimatedNoise
hidden = record {
  width = 0;
  height = 0;
  image = none;
  frame = 1;
  requested = true;
  listening = true;
}

-- It is shown again after that frame.
ends_without_pixels_example :
    ((run browser (frame_due grey ∷ resized 4 2 ∷ frame_due grey ∷ []) hidden).requested ≡ false)
    × ((run browser (frame_due grey ∷ resized 4 2 ∷ frame_due grey ∷ []) hidden).frame ≡ 2)
ends_without_pixels_example =
    ends_without_pixels browser browser-IsBrowser grey hidden (resized 4 2 ∷ frame_due grey ∷ [])
      refl (inl refl) refl
