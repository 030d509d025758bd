-- ===== src/ScrambleText/Hover.antt =====
-- What a text that is scrambled on hover shows once its animation is over.
use infrgate.Prelude.{
  ℕ, ◌≡◌, refl, sym, ap, ◌∙◌, Bool, true, false, some, List, [], ◌∷◌, All, arith,
}
use infrgate.Prelude.Text.{Text}
use infrgate.ScrambleText.{
  Tween, on_update, run_scramble_animation, ScrambleTextOnHover, handle_mouse_enter,
  update_on_hover, complete_on_hover, change_text_on_hover,
}
use infrgate.ScrambleText.Locking.{Frame}

pub data HoverEvent : Type 0 where
  entered : (ℕ → ℕ) → HoverEvent
  framed : Frame → HoverEvent
  changed : Text → HoverEvent
  completed : HoverEvent

pub occur : HoverEvent → ScrambleTextOnHover → ScrambleTextOnHover
occur (entered draws) s = handle_mouse_enter draws s
occur (framed f) s = update_on_hover f.progress f.draws s
occur (changed text) s = change_text_on_hover text s
occur completed s = complete_on_hover s

pub run : List HoverEvent → ScrambleTextOnHover → ScrambleTextOnHover
run [] s = s
run (e ∷ es) s = run es (occur e s)

abbrev pub is_completed : HoverEvent → Bool
is_completed completed = true
is_completed _ = false

-- the text that the events leave
abbrev pub latest : List HoverEvent → Text → Text
latest [] text = text
latest (changed text ∷ es) old = latest es text
latest (entered draws ∷ es) old = latest es old
latest (framed f ∷ es) old = latest es old
latest (completed ∷ es) old = latest es old

-- An animation is running that began with a text.
record IsRunning (text : Text) (s : ScrambleTextOnHover) : Type 0 where
  animating : s.is_animating ≡ true
  tween : Tween
  running : s.tween ≡ some tween
  same : tween.text ≡ text

occur-IsRunning :
    (text : Text) (e : HoverEvent) (s : ScrambleTextOnHover)
    → is_completed e ≡ false
    → IsRunning text s
    → IsRunning text (occur e s)
unfolding occur handle_mouse_enter update_on_hover change_text_on_hover on_update
occur-IsRunning text (entered draws) s kind r =
    rw (r.animating, handle_mouse_enter)
      (record { animating = refl; tween = r.tween; running = r.running; same = r.same })
occur-IsRunning text (framed f) s kind r =
    rw (r.running, update_on_hover)
      (record {
        animating = r.animating;
        tween = (on_update f.progress f.draws r.tween).0;
        running = refl;
        same = r.same;
      })
occur-IsRunning text (changed text') s kind r =
    rw (r.animating, change_text_on_hover)
      (record { animating = refl; tween = r.tween; running = r.running; same = r.same })
occur-IsRunning text completed s kind r = cc

latest-occur :
    (e : HoverEvent) (es : List HoverEvent) (s : ScrambleTextOnHover)
    → latest (e ∷ es) s.text ≡ latest es (occur e s).text
unfolding occur handle_mouse_enter update_on_hover change_text_on_hover complete_on_hover
latest-occur (entered draws) es s = ap (latest es) (ground arith)
latest-occur (framed f) es s = ap (latest es) (ground arith)
latest-occur (changed text) es s = ap (latest es) (ground arith)
latest-occur completed es s = ap (latest es) (ground arith)

text-run : (es : List HoverEvent) (s : ScrambleTextOnHover) → (run es s).text ≡ latest es s.text
unfolding run
text-run [] s = refl
text-run (e ∷ es) s = text-run es (occur e s) ∙ sym (latest-occur e es s)

run-IsRunning :
    (text : Text) (es : List HoverEvent) (s : ScrambleTextOnHover)
    → All (λ e. is_completed e ≡ false) es
    → IsRunning text s
    → IsRunning text (run es s)
unfolding run
run-IsRunning text [] s kind r = r
run-IsRunning text (e ∷ es) s kind r =
    run-IsRunning text es (occur e s) kind.1 (occur-IsRunning text e s kind.0 r)

handle_mouse_enter-IsRunning :
    (draws : ℕ → ℕ) (s : ScrambleTextOnHover)
    → s.is_animating ≡ false
    → IsRunning s.text (handle_mouse_enter draws s)
unfolding handle_mouse_enter run_scramble_animation
handle_mouse_enter-IsRunning draws s idle =
    rw (idle, handle_mouse_enter)
      (record {
        animating = refl;
        tween = run_scramble_animation s.text;
        running = refl;
        same = refl;
      })

complete_running :
    (text : Text) (s : ScrambleTextOnHover)
    → IsRunning text s
    → ((complete_on_hover s).is_animating ≡ false)
      × ((complete_on_hover s).display_text ≡ text)
      × ((complete_on_hover s).text ≡ s.text)
unfolding complete_on_hover
complete_running text s r = ground (arith, r.running, r.same)

-- An animation on hover ends with the text with which it began, whatever happens meanwhile: hovering
-- again does not restart it, and a text that is set meanwhile is the component's text from then on, but
-- is not shown at the end.
pub hover_ends :
    (draws : ℕ → ℕ) (es : List HoverEvent) (s : ScrambleTextOnHover)
    → s.is_animating ≡ false
    → All (λ e. is_completed e ≡ false) es
    → let s' = complete_on_hover (run es (handle_mouse_enter draws s)) in
      (s'.is_animating ≡ false) × (s'.display_text ≡ s.text) × (s'.text ≡ latest es s.text)
unfolding occur
hover_ends draws es s idle kind =
    let began = handle_mouse_enter draws s in
    let ended =
      complete_running s.text (run es began)
        (run-IsRunning s.text es began kind (handle_mouse_enter-IsRunning draws s idle)) in
    (
      ended.0,
      ended.1,
      ended.2 ∙ text-run es began ∙ ap (latest es) (sym (latest-occur (entered draws) [] s)),
    )
