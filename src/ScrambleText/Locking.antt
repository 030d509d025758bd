-- ===== src/ScrambleText/Locking.antt =====
-- The text locks in from the left.
use infrgate.Prelude.{
  ℕ, zero, suc, ◌+◌, ◌<◌, ◌≡◌, refl, sym, ap, ◌∙◌, true, ◌||◌, List, [], ◌∷◌, ◌++◌, take, length,
  ltb, arith,
}
use mathlib.Core.Path.{subst}
use native.Mathlib.Nat.{zero-add}
use infrgate.Prelude.Text.{Text}
use infrgate.ScrambleText.{
  has, lock_below, num_locked, display_from, Tween, on_update, run_scramble_animation,
}

-- a frame: the progress, and its draws
pub record Frame : Type 0 where
  pub progress : ℕ
  pub draws : ℕ → ℕ

has-lock_below : (i n : ℕ) (set : List ℕ) → has i (lock_below n set) ≡ (ltb i n || has i set)
unfolding lock_below
has-lock_below i zero set = ground arith
has-lock_below i (suc n) set = ground (arith, has-lock_below i n set, has-lock_below n n set)

-- Where all positions of a stretch are locked, it shows the text.
take-display_from :
    (draws : ℕ → ℕ) (locked : List ℕ) (i k : ℕ) (text : Text)
    → ((j : ℕ) → j < k → has (i + j) locked ≡ true)
    → take k (display_from draws locked i text) ≡ take k text
unfolding display_from
take-display_from draws locked i zero text h = refl
take-display_from draws locked i (suc k) [] h = refl
take-display_from draws locked i (suc k) (c ∷ text) h =
    let here : has i locked ≡ true = at i (omega arith) (h 0 (omega arith)) in
    let later =
      take-display_from draws locked (suc i) k text
        (λ j lt. at (suc i + j) (omega arith) (h (suc j) (omega arith))) in
    rw here (ap (λ t. c ∷ t) later)
  where
    at : (m : ℕ) {n : ℕ} → n ≡ m → has n locked ≡ true → has m locked ≡ true
    at m e = subst (λ n. has n locked ≡ true) e

length-display_from :
    (draws : ℕ → ℕ) (locked : List ℕ) (i : ℕ) (text : Text)
    → length (display_from draws locked i text) ≡ length text
unfolding display_from
length-display_from draws locked i [] = refl
length-display_from draws locked i (c ∷ text) =
    ap suc (length-display_from draws locked (suc i) text)

-- the frames of an animation
pub play : List Frame → Tween → Tween
play [] t = t
play (f ∷ fs) t = play fs (on_update f.progress f.draws t).0

abbrev IsLocked : ℕ → Tween → Type 0
IsLocked k t = (j : ℕ) → j < k → has j t.locked_indices ≡ true

module _ (k : ℕ) where
  on_update-IsLocked :
      (f : Frame) (t : Tween) → IsLocked k t → IsLocked k (on_update f.progress f.draws t).0
  unfolding on_update
  on_update-IsLocked f t locked j lt =
      ground (arith, has-lock_below j (num_locked f.progress t.text) t.locked_indices, locked j lt)

  play-IsLocked : (fs : List Frame) (t : Tween) → IsLocked k t → IsLocked k (play fs t)
  unfolding play
  play-IsLocked [] t locked = locked
  play-IsLocked (f ∷ fs) t locked =
      play-IsLocked fs (on_update f.progress f.draws t).0 (on_update-IsLocked f t locked)

-- a frame locks what its progress comes to
on_update_locks :
    (f : Frame) (t : Tween)
    → IsLocked (num_locked f.progress t.text) (on_update f.progress f.draws t).0
unfolding on_update
on_update_locks f t j lt =
    has-lock_below j (num_locked f.progress t.text) t.locked_indices ∙ ground arith

text-play : (fs : List Frame) (t : Tween) → (play fs t).text ≡ t.text
unfolding play on_update
text-play [] t = refl
text-play (f ∷ fs) t = text-play fs (on_update f.progress f.draws t).0

play-append : (fs gs : List Frame) (t : Tween) → play (fs ++ gs) t ≡ play gs (play fs t)
unfolding play
play-append [] gs t = refl
play-append (f ∷ fs) gs t = play-append fs gs (on_update f.progress f.draws t).0

-- what a frame shows
abbrev pub shown : Frame → Tween → Text
shown f t = (on_update f.progress f.draws t).1

shown-take :
    (k : ℕ) (f : Frame) (t : Tween)
    → IsLocked k (on_update f.progress f.draws t).0
    → take k (shown f t) ≡ take k t.text
unfolding on_update
shown-take k f t locked =
    take-display_from f.draws (lock_below (num_locked f.progress t.text) t.locked_indices) 0 k
      t.text (λ j lt. rw zero-add (locked j lt))

length-shown : (g : Frame) (t : Tween) → length (shown g t) ≡ length t.text
unfolding on_update
length-shown g t = length-display_from g.draws _ 0 t.text

module _ (text : Text) where
  started : Tween
  started = run_scramble_animation text

  text-play-started : (fs : List Frame) → (play fs started).text ≡ text
  unfolding started run_scramble_animation
  text-play-started fs = text-play fs started

  -- what a frame locked stays locked
  IsLocked-since :
      (before after : List Frame) (f : Frame)
      → IsLocked (num_locked f.progress text) (play (before ++ f ∷ after) started)
  unfolding play
  IsLocked-since before after f =
      let t = play before started in
      let now =
        subst (λ x. IsLocked (num_locked f.progress x) (on_update f.progress f.draws t).0)
          (text-play-started before) (on_update_locks f t) in
      subst (IsLocked (num_locked f.progress text)) (sym (play-append before (f ∷ after) started))
        (play-IsLocked (num_locked f.progress text) after (on_update f.progress f.draws t).0 now)

  -- The text locks in from the left: in every frame the characters that its own progress comes to are the
  -- text's, and so are those that the progress of any frame before it came to, also if the progress has
  -- gone back since; and each frame is as long as the text.
  pub frames_lock :
      (before after : List Frame) (f g : Frame)
      → let t = play (before ++ f ∷ after) (run_scramble_animation text) in
        (take (num_locked g.progress text) (shown g t) ≡ take (num_locked g.progress text) text)
        × (take (num_locked f.progress text) (shown g t) ≡ take (num_locked f.progress text) text)
        × (length (shown g t) ≡ length text)
  unfolding started
  frames_lock before after f g =
      let t = play (before ++ f ∷ after) started in
      let same = text-play-started (before ++ f ∷ after) in
      let kept =
        on_update-IsLocked (num_locked f.progress text) g t (IsLocked-since before after f) in
      (
        subst (λ x. take (num_locked g.progress x) (shown g t) ≡ take (num_locked g.progress x) x)
            same (shown-take (num_locked g.progress t.text) g t (on_update_locks g t)),
        shown-take (num_locked f.progress text) g t kept
            ∙ ap (take (num_locked f.progress text)) same,
        length-shown g t ∙ ap length same,
      )
