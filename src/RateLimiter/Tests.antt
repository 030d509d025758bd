-- ===== src/RateLimiter/Tests.antt =====
-- Runs of the rate limiter, and its theorems at concrete inputs.
use infrgate.Prelude.{
  ℕ, ◌%◌, ◌^◌, ◌+◌, ◌-◌, ◌*◌, ◌≤◌, ◌≡◌, ◌≢◌, refl, ◌⊎◌, true, false, none, some, List, [], ◌∷◌,
  arith,
}
use infrgate.Prelude.Text.{Text, codes}
use infrgate.Prelude.Eq.{List-eq}
use infrgate.Prelude.Int.{pos, sub_ℕ, ◌+ℤ◌, ◌-ℤ◌, ◌*ℤ◌, ◌≤ℤ◌, min_ℤ}
use infrgate.Prelude.Dict.{lookup, insert}
use infrgate.RateLimiter.{RateLimitOptions, TokenBucketRateLimiter, finite, at, new, check}
use infrgate.RateLimiter.Spec.{level}
use infrgate.RateLimiter.Account.{InEighths, IsExact, check_account}
use infrgate.RateLimiter.Budget.{Request, granted, granted_bound}
use infrgate.RateLimiter.Retry.{retry_exact, reset_at_not_full}

abbrev options : RateLimitOptions
options = record { capacity = 4; refill_rate = 1; key_prefix = none }

abbrev limiter : TokenBucketRateLimiter
limiter = new options

abbrev alice : Text
alice = codes "alice"

abbrev bob : Text
bob = codes "bob"

abbrev drained : TokenBucketRateLimiter
drained = (check limiter alice 4 5000).1

denied_run : (check drained alice 2 5250).0.retry_after ≡ some (finite 2)
unfolding new check lookup insert ◌+ℤ◌ ◌-ℤ◌ ◌*ℤ◌ min_ℤ
denied_run = refl

bob-ne-alice : bob ≢ alice
bob-ne-alice e = cc

-- The first check took 4 tokens at 5000, which is 40 eighths of a second.
drained-IsExact : (now : ℕ) → now % 125 ≡ 0 → now ≤ 2 ^ 50 → IsExact drained alice 2 now
unfolding new check lookup insert ◌+ℤ◌ ◌-ℤ◌ ◌*ℤ◌ min_ℤ
drained-IsExact now eighth small = record {
  bucket = ((refl, refl), refl, omega arith, omega arith);
  reading = eighth;
  reading_small = omega (arith, small);
  capacity_small = omega arith;
  tokens_small = omega arith;
}

check_account_example :
    (((check drained alice 2 7000).0.allowed ≡ true)
      × (pos 2000 ≤ℤ level drained alice 7000)
      × (level (check drained alice 2 7000).1 alice 7500
          ≡ min_ℤ
              (level drained alice 7000
                -ℤ pos 2000
                +ℤ sub_ℕ 7500 7000 *ℤ pos drained.config.refill_rate)
              (pos (1000 * drained.config.capacity)))
      × InEighths (level drained alice 7000 -ℤ pos 2000)
      × InEighths (level (check drained alice 2 7000).1 alice 7500))
    ⊎ (((check drained alice 2 7000).0.allowed ≡ false)
        × ¬ (pos 2000 ≤ℤ level drained alice 7000)
        × ((check drained alice 2 7000).1 ≡ drained))
check_account_example =
    check_account drained alice 2 7000 7500 (drained-IsExact 7000 refl (omega arith)) refl

abbrev requests : List Request
requests =
    (record { key = alice; tokens = 3; now = 5000 })
    ∷ (record { key = bob; tokens = 4; now = 5100 })
    ∷ (record { key = alice; tokens = 2; now = 6200 })
    ∷ []

granted_run : granted (new options) requests alice ≡ 5
unfolding granted new check lookup insert ◌+ℤ◌ ◌-ℤ◌ ◌*ℤ◌ min_ℤ
granted_run = refl

granted_bound_example :
    1000 * granted (new options) requests alice
    ≤ 1000 * options.capacity + (6200 - 5000) * options.refill_rate
granted_bound_example = granted_bound 5000 6200 options requests alice (omega arith) (omega arith)

retry_exact_example :
    (5250 + 1000 * 2 ≤ 7250 → (check drained alice 2 7250).0.allowed ≡ true)
    × (7250 + 1000 ≤ 5250 + 1000 * 2 → (check drained alice 2 7250).0.allowed ≡ false)
unfolding new check min_ℤ ◌+ℤ◌ lookup ◌*ℤ◌
retry_exact_example =
    retry_exact drained alice 2 5250 7250 2 (drained-IsExact 5250 refl (omega arith))
      (drained-IsExact 7250 refl (omega arith)) (omega arith) (omega arith) denied_run

reset_at_not_full_example :
    ((check drained alice 2 5250).0.reset_at ≡ at (5250 + 2 * 1000))
    × ¬ (pos (1000 * drained.config.capacity) ≤ℤ level drained alice (5250 + 2 * 1000))
unfolding new check min_ℤ ◌+ℤ◌ lookup ◌*ℤ◌
reset_at_not_full_example =
    reset_at_not_full drained alice 2 5250 2 (drained-IsExact 5250 refl (omega arith)) (omega arith)
      denied_run
