-- ===== src/Page/SmoothScroll.antt =====
-- Frontend/components/smooth-scroll.tsx: the component that drives a `Lenis` by the ticker of gsap. The
-- ticker's `add` and `remove` are gsap's, and parameters. The easing and what the scrolling does are left
-- out.
use infrgate.Prelude.{ℕ, suc, ◌≡◌, ◌≢◌, Bool, true, List, [], ◌∷◌}

-- A function that may be given to the ticker: `lenis.raf`, or the arrow function that calls it, each of
-- the `Lenis` with the number.
pub data Callback : Type 0 where
  raf : ℕ → Callback
  arrow : ℕ → Callback

-- gsap's ticker
pub record Ticker : Type 1 where
  pub Listeners : Type 0
  pub has : Callback → Listeners → Bool
  pub add : Callback → Listeners → Listeners
  pub remove : Callback → Listeners → Listeners

-- What a ticker does: a function that is added is called from then on, until it is removed.
pub record IsTicker (t : Ticker) : Type 0 where
  pub has-add : (c : Callback) (l : t.Listeners) → t.has c (t.add c l) ≡ true
  pub has-add_other :
      (c d : Callback) (l : t.Listeners) → t.has d l ≡ true → t.has d (t.add c l) ≡ true
  pub has-remove_other :
      (c d : Callback) (l : t.Listeners) → c ≢ d → t.has d l ≡ true → t.has d (t.remove c l) ≡ true

module _ (t : Ticker) where
  -- the ticker's functions, the number of the next `Lenis`, and those that were destroyed
  pub record Scrolling : Type 0 where
    pub listeners : t.Listeners
    pub next : ℕ
    pub destroyed : List ℕ

  -- the effect
  unfoldable pub mount : Scrolling → Scrolling
  mount s = record s { listeners = t.add (arrow s.next) s.listeners; next = suc s.next }

  -- its cleanup, for the `Lenis` that it made
  unfoldable pub unmount : ℕ → Scrolling → Scrolling
  unmount lenis s = record s {
    listeners = t.remove (raf lenis) s.listeners;
    destroyed = lenis ∷ s.destroyed;
  }

  pub data Event : Type 0 where
    mounted : Event
    unmounted : ℕ → Event

  unfoldable pub step : Event → Scrolling → Scrolling
  unfolding mount unmount
  step mounted s = mount s
  step (unmounted lenis) s = unmount lenis s

  unfoldable pub run : List Event → Scrolling → Scrolling
  unfolding step
  run [] s = s
  run (e ∷ es) s = run es (step e s)

  raf-ne-arrow : (i j : ℕ) → raf i ≢ arrow j
  raf-ne-arrow i j e = cc

  run-has :
      (laws : IsTicker t) (lenis : ℕ) (es : List Event) (s : Scrolling)
      → t.has (arrow lenis) s.listeners ≡ true
      → t.has (arrow lenis) (run es s).listeners ≡ true
  unfolding run step mount unmount
  run-has laws lenis [] s h = h
  run-has laws lenis (mounted ∷ es) s h =
      run-has laws lenis es (mount s)
        (laws.has-add_other (arrow s.next) (arrow lenis) s.listeners h)
  run-has laws lenis (unmounted i ∷ es) s h =
      run-has laws lenis es (unmount i s)
        (laws.has-remove_other (raf i) (arrow lenis) s.listeners (raf-ne-arrow i lenis) h)

  -- A mounted component never leaves the ticker: the function that it adds is called for ever after,
  -- also once its `Lenis` is destroyed, since its cleanup removes another function than the one that was
  -- added.
  pub leaks :
      (laws : IsTicker t) (s : Scrolling) (es : List Event)
      → t.has (arrow s.next) (run es (unmount s.next (mount s))).listeners ≡ true
  unfolding mount unmount
  leaks laws s es = run-has laws s.next es (unmount s.next (mount s)) (
      laws.has-remove_other (raf s.next) (arrow s.next) (t.add (arrow s.next) s.listeners)
        (raf-ne-arrow s.next s.next) (laws.has-add (arrow s.next) s.listeners))
