-- ===== src/AnimatedNoise/Frames.antt =====
-- Which frames of the animation draw, and when it ends.
use infrgate.Prelude.{
  ℕ, zero, suc, ◌+◌, ◌*◌, ◌%◌, ◌≡◌, ◌<◌, ◌≤◌, ◌⊎◌, inl, inr, refl, sym, ◌∙◌, ap, true, false, none,
  some, List, [], ◌∷◌, arith, All, nat_eq, Bool-cases, if◌then◌else◌,
}
use mathlib.Core.Path.{subst}
use infrgate.AnimatedNoise.{
  Browser, IsBrowser, AnimatedNoise, Event, resized, frame_due, unmounted, generate_noise, resize,
  canvas, animate, mount, unmount, step, run,
}
use infrgate.AnimatedNoise.Noise.{greys, generate_noise_lem}

generate_noise_positive :
    (b : Browser) (laws : IsBrowser b) (draws : ℕ → ℕ) (w h : ℕ)
    → 0 < w
    → 0 < h
    → generate_noise b draws w h ≡ some (greys b draws 0 (w * h))
generate_noise_positive b laws draws zero h p q = absurd (omega (arith, p))
generate_noise_positive b laws draws (suc w) zero p q = absurd (omega (arith, q))
generate_noise_positive b laws draws (suc w) (suc h) p q = generate_noise_lem b laws draws w h

generate_noise_throws :
    (b : Browser) (laws : IsBrowser b) (draws : ℕ → ℕ) (w h : ℕ)
    → (w ≡ 0) ⊎ (h ≡ 0)
    → generate_noise b draws w h ≡ none
unfolding generate_noise
generate_noise_throws b laws draws w h (inl e) = rw e (rw (laws.no_width h, generate_noise) refl)
generate_noise_throws b laws draws w h (inr e) = rw e (rw (laws.no_height w, generate_noise) refl)

-- a canvas that has pixels
abbrev pub HasPixels : AnimatedNoise → Type 0
HasPixels s = (0 < s.width) × (0 < s.height)

animate-even :
    (b : Browser) (laws : IsBrowser b) (draws : ℕ → ℕ) (s : AnimatedNoise)
    → HasPixels s
    → nat_eq (suc s.frame % 2) 0 ≡ true
    → animate b draws s ≡ record s {
      frame = suc s.frame;
      image = some (greys b draws 0 (s.width * s.height));
      requested = true;
    }
unfolding animate
animate-even b laws draws s p even =
    rw even (rw (generate_noise_positive b laws draws s.width s.height p.0 p.1) refl)

animate-odd :
    (b : Browser) (draws : ℕ → ℕ) (s : AnimatedNoise)
    → nat_eq (suc s.frame % 2) 0 ≡ false
    → animate b draws s ≡ record s { frame = suc s.frame; requested = true }
unfolding animate
animate-odd b draws s odd = rw odd refl

-- the animation goes on after so many frames
abbrev IsAnimated : ℕ → AnimatedNoise → Type 0
IsAnimated n s = HasPixels s × (s.requested ≡ true) × (s.frame ≡ n)

animate-IsAnimated :
    (b : Browser) (laws : IsBrowser b) (draws : ℕ → ℕ) (s : AnimatedNoise)
    → HasPixels s
    → IsAnimated (suc s.frame) (animate b draws s)
animate-IsAnimated b laws draws s p = elim (Bool-cases (nat_eq (suc s.frame % 2) 0)) [
  | inl even ↦ rw (animate-even b laws draws s p even) (p, refl, refl)
  | inr odd ↦ rw (animate-odd b draws s odd) (p, refl, refl)
]

-- an element of two pixels or more on each side, and the component not ended
abbrev pub IsRegular : Event → Type 0
IsRegular (resized w h) = (2 ≤ w) × (2 ≤ h)
IsRegular (frame_due draws) = Unit
IsRegular unmounted = ⊥

abbrev pub frames : List Event → ℕ
frames [] = 0
frames (resized w h ∷ es) = frames es
frames (frame_due draws ∷ es) = suc (frames es)
frames (unmounted ∷ es) = frames es

resize-HasPixels : (w h : ℕ) (s : AnimatedNoise) → 2 ≤ w → 2 ≤ h → HasPixels (resize w h s)
unfolding resize
resize-HasPixels w h s p q = (omega (arith, p), omega (arith, q))

step-resized :
    (b : Browser) (w h : ℕ) (s : AnimatedNoise) (P : AnimatedNoise → Type 0)
    → P (resize w h s)
    → P s
    → P (step b (resized w h) s)
unfolding step
step-resized b w h s P sized as_it_was =
    elim s.listening as (λ here. P (if here then resize w h s else s)) [
      | true ↦ sized
      | false ↦ as_it_was
    ]

step-due :
    (b : Browser) (draws : ℕ → ℕ) (s : AnimatedNoise)
    → s.requested ≡ true
    → step b (frame_due draws) s ≡ animate b draws (record s { requested = false })
unfolding step
step-due b draws s e =
    ap (λ due. if due then animate b draws (record s { requested = false }) else s) e

step_resized-IsAnimated :
    (b : Browser) (w h n : ℕ) (s : AnimatedNoise)
    → 2 ≤ w
    → 2 ≤ h
    → IsAnimated n s
    → IsAnimated n (step b (resized w h) s)
unfolding resize
step_resized-IsAnimated b w h n s p q on =
    step-resized b w h s (IsAnimated n) (resize-HasPixels w h s p q, on.1, on.2) on

run-IsAnimated :
    (b : Browser) (laws : IsBrowser b) (es : List Event) (n m : ℕ) (s : AnimatedNoise)
    → All IsRegular es
    → IsAnimated n s
    → m ≡ n + frames es
    → IsAnimated m (run b es s)
unfolding run
run-IsAnimated b laws [] n m s ok on e = (on.0, on.1, omega (arith, e, on.2))
run-IsAnimated b laws (resized w h ∷ es) n m s ok on e =
    run-IsAnimated b laws es n m (step b (resized w h) s) ok.1
      (step_resized-IsAnimated b w h n s ok.0.0 ok.0.1 on) e
run-IsAnimated b laws (frame_due draws ∷ es) n m s ok on e =
    let waiting = record s { requested = false } in
    subst (λ a. IsAnimated m (run b es a)) (sym (step-due b draws s on.1))
      (run-IsAnimated b laws es (suc s.frame) m (animate b draws waiting) ok.1
        (animate-IsAnimated b laws draws waiting on.0) (omega (arith, e, on.2)))
run-IsAnimated b laws (unmounted ∷ es) n m s ok on e = elim ok.0 [ ]

mount-IsAnimated :
    (b : Browser) (laws : IsBrowser b) (draws : ℕ → ℕ) (w h : ℕ)
    → 2 ≤ w
    → 2 ≤ h
    → IsAnimated 1 (mount b draws w h)
unfolding mount resize
mount-IsAnimated b laws draws w h p q =
    animate-IsAnimated b laws draws (record (resize w h canvas) { listening = true })
      (resize-HasPixels w h canvas p q)

-- As long as the element is two pixels or more wide and high, and the component is there, every second
-- frame from the first on puts complete noise of the canvas's size then, one draw for each pixel, and the
-- frames between leave the image as it is.
pub draws_every_other :
    (b : Browser) (laws : IsBrowser b) (first draws : ℕ → ℕ) (w h : ℕ) (es : List Event)
    → 2 ≤ w
    → 2 ≤ h
    → All IsRegular es
    → let s = run b es (mount b first w h) in
      (run b (frame_due draws ∷ []) s).image
      ≡ (if nat_eq (frames es % 2) 0 then some (greys b draws 0 (s.width * s.height)) else s.image)
unfolding run
draws_every_other b laws first draws w h es p q ok =
    let s = run b es (mount b first w h) in
    let waiting = record s { requested = false } in
    let on =
      run-IsAnimated b laws es 1 (1 + frames es) (mount b first w h) ok
        (mount-IsAnimated b laws first w h p q) refl in
    let parity : nat_eq (suc s.frame % 2) 0 ≡ nat_eq (frames es % 2) 0 = ground (arith, on.2) in
    elim (Bool-cases (nat_eq (frames es % 2) 0)) [
      | inl even ↦
          rw (even, step-due b draws s on.1)
            (ap (λ a. a.image) (animate-even b laws draws waiting on.0 (parity ∙ even)))
      | inr odd ↦
          rw (odd, step-due b draws s on.1)
            (ap (λ a. a.image) (animate-odd b draws waiting (parity ∙ odd)))
    ]

-- nothing requests a frame any more
run_not_requested :
    (b : Browser) (es : List Event) (s : AnimatedNoise)
    → s.requested ≡ false
    → ((run b es s).requested ≡ false) × ((run b es s).frame ≡ s.frame)
unfolding run unmount step
run_not_requested b [] s e = (e, refl)
run_not_requested b (resized w h ∷ es) s e =
    step-resized b w h s (λ a. ((run b es a).requested ≡ false) × ((run b es a).frame ≡ s.frame))
      (unfold resize in run_not_requested b es (resize w h s) e) (run_not_requested b es s e)
run_not_requested b (frame_due draws ∷ es) s e =
    subst
      (λ due.
        let next = if due then animate b draws (record s { requested = false }) else s in
        ((run b es next).requested ≡ false) × ((run b es next).frame ≡ s.frame))
      (sym e) (run_not_requested b es s e)
run_not_requested b (unmounted ∷ es) s e = run_not_requested b es (unmount s) refl

animate_throws :
    (b : Browser) (laws : IsBrowser b) (draws : ℕ → ℕ) (s : AnimatedNoise)
    → (s.width ≡ 0) ⊎ (s.height ≡ 0)
    → suc s.frame % 2 ≡ 0
    → animate b draws s ≡ record s { frame = suc s.frame }
unfolding animate
animate_throws b laws draws s no_pixels even =
    let due : nat_eq (suc s.frame % 2) 0 ≡ true = ground (arith, even) in
    rw due (rw (generate_noise_throws b laws draws s.width s.height no_pixels) refl)

-- A frame that is to draw while the canvas has no width or no height is the last one: the animation never
-- runs again, whatever size the element gets later.
pub ends_without_pixels :
    (b : Browser) (laws : IsBrowser b) (draws : ℕ → ℕ) (s : AnimatedNoise) (es : List Event)
    → s.requested ≡ true
    → (s.width ≡ 0) ⊎ (s.height ≡ 0)
    → suc s.frame % 2 ≡ 0
    → ((run b (frame_due draws ∷ es) s).requested ≡ false)
      × ((run b (frame_due draws ∷ es) s).frame ≡ suc s.frame)
unfolding run
ends_without_pixels b laws draws s es due no_pixels even =
    let waiting = record s { requested = false } in
    subst (λ a. ((run b es a).requested ≡ false) × ((run b es a).frame ≡ suc s.frame))
      (sym (step-due b draws s due ∙ animate_throws b laws draws waiting no_pixels even))
      (run_not_requested b es (record waiting { frame = suc s.frame }) refl)
