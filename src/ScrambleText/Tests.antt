-- ===== src/ScrambleText/Tests.antt =====
-- Animations of short texts, and the theorems on them there.
use infrgate.Prelude.{ℕ, ◌*◌, ◌/◌, ◌^◌, ◌≡◌, refl, false, List, [], ◌∷◌, ◌++◌, take, length}
use infrgate.Prelude.Text.{Text, codes}
use infrgate.ScrambleText.{
  num_locked, run_scramble_animation, on_update, display_from, lock_below, any_glyph, new_on_hover,
  handle_mouse_enter, complete_on_hover,
}
use infrgate.ScrambleText.Locking.{Frame, play, shown, frames_lock}
use infrgate.ScrambleText.Hover.{entered, framed, changed, HoverEvent, run, hover_ends}

abbrev text : Text
text = codes "HELLO"

-- a progress in hundredths
abbrev frame : ℕ → Frame
frame percent = record { progress = percent * 2 ^ 53 / 100; draws = λ i. i * 10 ^ 15 }

frames_lock_example :
    let t = play ((frame 10) ∷ [] ++ (frame 60) ∷ (frame 70) ∷ []) (run_scramble_animation text) in
    (take (num_locked (frame 40).progress text) (shown (frame 40) t)
      ≡ take (num_locked (frame 40).progress text) text)
    × (take (num_locked (frame 60).progress text) (shown (frame 40) t)
        ≡ take (num_locked (frame 60).progress text) text)
    × (length (shown (frame 40) t) ≡ length text)
frames_lock_example = frames_lock text ((frame 10) ∷ []) ((frame 70) ∷ []) (frame 60) (frame 40)

-- the frame of a progress of a half shows two of the five characters
frame_run : shown (frame 50) (run_scramble_animation text) ≡ codes "HE^(+"
unfolding on_update run_scramble_animation display_from lock_below any_glyph
frame_run = refl

abbrev traffic : List HoverEvent
traffic = framed (frame 20) ∷ changed (codes "BYE") ∷ entered (λ i. 0) ∷ framed (frame 100) ∷ []

hover_ends_example :
    let s' =
      complete_on_hover
        (run traffic (handle_mouse_enter (λ i. 0) (new_on_hover (codes "HELLO")))) in
    (s'.is_animating ≡ false) × (s'.display_text ≡ codes "HELLO") × (s'.text ≡ codes "BYE")
unfolding new_on_hover
hover_ends_example =
    hover_ends (λ i. 0) traffic (new_on_hover text) refl (refl, (refl, (refl, (refl, tt))))
