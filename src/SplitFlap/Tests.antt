-- ===== src/SplitFlap/Tests.antt =====
-- One tile from its first rendering until it has settled, and the theorem on it there.
use infrgate.Prelude.{ℕ, zero, suc, ◌+◌, ◌*◌, ◌≡◌, refl, true, false, some, List, [], ◌∷◌}
use infrgate.Prelude.Text.{codes}
use infrgate.SplitFlap.{
  SplitFlapCharProps, settle_threshold, start_delay, mount, animate, fire_next, run, new,
  initialize, tiles,
}
use infrgate.SplitFlap.Settling.{IsDone, settles}

-- the second of two tiles, after the entrance
abbrev tile : SplitFlapCharProps
tile = record {
  char = codes "Q";
  index = 1;
  animation_key = 0;
  skip_entrance = true;
  speed = 50;
  has_sound = true;
}

abbrev draws : ℕ → List ℕ
draws zero = []
draws (suc n) = 1000 * n ∷ draws n

settles_example :
    let flipped = run tile (5 ∷ draws 11) (animate tile 100 7 (mount tile)) in
    (flipped.is_settled ≡ false)
    × (flipped.interval ≡ some (100 + start_delay tile + tile.speed * (settle_threshold tile + 1)))
    × IsDone tile (mount tile).clicks (fire_next tile 3 flipped)
settles_example = settles tile 100 7 5 3 (draws 11) (mount tile) refl refl

-- the time of the last flip
settles_run : (run tile (5 ∷ draws 11) (animate tile 100 7 (mount tile))).interval ≡ some 760
unfolding run fire_next animate mount
settles_run = refl

-- the tile of a text of one character
tiles_run : tiles (λ t. t) 50 true (codes "Q") (initialize new) ≡ (record tile { index = 0 }) ∷ []
unfolding tiles initialize new
tiles_run = refl
