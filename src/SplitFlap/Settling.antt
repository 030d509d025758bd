-- ===== src/SplitFlap/Settling.antt =====
-- When a tile settles, and what it shows and clicks until then.
use infrgate.Prelude.{
  ℕ, suc, ◌+◌, ◌*◌, ◌/◌, ◌≤◌, ◌<◌, ◌≡◌, refl, ap, true, false, none, some, List, [], ◌∷◌, length,
  arith, if◌then◌else◌,
}
use infrgate.SplitFlap.{
  SplitFlapCharProps, SplitFlapChar, display_char, is_space, start_delay, settle_threshold, animate,
  fire_next, run,
}

-- the clicks of the flips from one to another
abbrev flips_heard : SplitFlapCharProps → ℕ → ℕ → ℕ
flips_heard p c n = if p.has_sound then c + (n + 1) / 2 else c

module _ (p : SplitFlapCharProps) where
  -- After some flips: when the next one is due, and how many clicks there were.
  record IsFlipping (c n due : ℕ) (s : SplitFlapChar) : Type 0 where
    unset : s.timeout ≡ none
    set : s.interval ≡ some due
    flips : s.flip_index ≡ n
    unsettling : s.has_started_settling ≡ false
    unsettled : s.is_settled ≡ false
    heard : s.clicks ≡ flips_heard p c n

  fire_next-IsFlipping :
      (c n due r : ℕ) (s : SplitFlapChar)
      → n < settle_threshold p
      → IsFlipping c n due s
      → IsFlipping c (suc n) (due + p.speed) (fire_next p r s)
  unfolding fire_next
  fire_next-IsFlipping c n due r s h f = ground arith

  run-IsFlipping :
      (c n due m later : ℕ) (rs : List ℕ) (s : SplitFlapChar)
      → m ≤ settle_threshold p
      → m ≡ n + length rs
      → later ≡ due + p.speed * length rs
      → IsFlipping c n due s
      → IsFlipping c m later (run p rs s)
  unfolding run
  run-IsFlipping c n due m later [] s h e e' f =
      let same : m ≡ n = omega arith in let same' : later ≡ due = omega arith in rw (same, same') f
  run-IsFlipping c n due m later (r ∷ rs) s h e e' f =
      run-IsFlipping c (suc n) (due + p.speed) m later rs (fire_next p r s) h (omega arith)
        (omega arith) (fire_next-IsFlipping c n due r s (omega arith) f)

  -- the first timer after the effect
  begin-IsFlipping :
      (now r r' : ℕ) (s : SplitFlapChar)
      → is_space p ≡ false
      → IsFlipping s.clicks 0 (now + start_delay p + p.speed) (fire_next p r' (animate p now r s))
  unfolding fire_next animate
  begin-IsFlipping now r r' s solid =
      rw (solid, animate)
        (record {
          unset = refl;
          set = refl;
          flips = refl;
          unsettling = refl;
          unsettled = refl;
          heard = ground arith;
        })

  -- A tile has settled: it shows its character, and no timer is left.
  pub record IsDone (c : ℕ) (s : SplitFlapChar) : Type 0 where
    pub shown : s.current_char ≡ display_char p
    pub settled : s.is_settled ≡ true
    pub timeout_over : s.timeout ≡ none
    pub interval_over : s.interval ≡ none
    pub heard : s.clicks ≡ (if p.has_sound then c + (settle_threshold p + 1) / 2 + 1 else c)

  finish-IsDone :
      (c due r : ℕ) (s : SplitFlapChar)
      → IsFlipping c (settle_threshold p) due s
      → IsDone c (fire_next p r s)
  unfolding fire_next
  finish-IsDone c due r s f = ground arith

  -- A tile that is no space flips for `8 + index * 3` times: until then it has not settled, and its
  -- next flip is due after the delay and a speed for each of them and one more. That one settles it, for
  -- whatever draws: it shows its own character, or a space for one that is not in the set, no timer is
  -- left, and every second flip and the last have clicked.
  pub settles :
      (now r r' last : ℕ) (rs : List ℕ) (s : SplitFlapChar)
      → is_space p ≡ false
      → length rs ≡ settle_threshold p
      → let flipped = run p (r' ∷ rs) (animate p now r s) in
        (flipped.is_settled ≡ false)
        × (flipped.interval ≡ some (now + start_delay p + p.speed * (settle_threshold p + 1)))
        × IsDone s.clicks (fire_next p last flipped)
  unfolding run
  settles now r r' last rs s solid enough =
      let flipped =
        run-IsFlipping s.clicks 0 (now + start_delay p + p.speed) (settle_threshold p)
          (now + start_delay p + p.speed * (settle_threshold p + 1)) rs
          (fire_next p r' (animate p now r s)) (omega arith) (omega arith)
          (omega (arith, ap (λ (t : ℕ). p.speed * t) enough)) (begin-IsFlipping now r r' s solid) in
      (flipped.unsettled, flipped.set, finish-IsDone s.clicks _ last _ flipped)
