-- ===== src/RateLimiter.antt =====
-- packages/sdk/src/rate-limiter.ts: the token bucket. A method of `TokenBucketRateLimiter` takes the
-- object and the clock's reading, and returns its result beside the new object. Time is in whole
-- milliseconds. Capacity, refill rate and the tokens asked for are whole numbers, so that a bucket
-- holds a whole number of thousandths of a token, and the arithmetic here is exact. The program rounds to
-- binary fractions: its numbers are these where the clock is read at whole eighths of a second, which
-- Account makes precise. A bucket's tokens are signed, as the wall clock may step back.
pub mod Bucket
pub mod Spec
pub mod Account
pub mod Budget
pub mod Retry
pub mod Tests
use infrgate.Prelude.{
  ℕ, zero, suc, ◌+◌, ◌-◌, ◌*◌, ◌/◌, Bool, true, false, Option, none, some, [], ◌++◌, leb, nat_eq,
  if◌then◌else◌,
}
use infrgate.Prelude.Int.{ℤ, pos, pos_part, neg_part, sub_ℕ, ◌+ℤ◌, ◌-ℤ◌, ◌*ℤ◌, leb_ℤ, min_ℤ}
use infrgate.Prelude.Text.{Text, codes}
use infrgate.Prelude.Eq.{List-eq}
use infrgate.Prelude.Dict.{Dict, lookup, insert, erase}

pub record RateLimitConfig : Type 0 where
  pub capacity : ℕ
  pub refill_rate : ℕ
  pub key_prefix : Text

-- A quotient by the refill rate: infinite when the rate is 0.
pub data Seconds : Type 0 where
  finite : ℕ → Seconds
  infinite : Seconds

-- A `Date`: one built from an infinite number, or from 0 / 0, is invalid.
pub data Timestamp : Type 0 where
  at : ℕ → Timestamp
  invalid : Timestamp

pub record RateLimitResult : Type 0 where
  pub allowed : Bool
  pub remaining : ℕ
  pub reset_at : Timestamp
  pub retry_after : Option Seconds

-- `tokens` in thousandths of a token
pub record BucketState : Type 0 where
  pub tokens : ℤ
  pub last_refill : ℕ

pub record TokenBucketRateLimiter : Type 0 where
  pub config : RateLimitConfig
  pub buckets : Dict Text BucketState

-- What a caller gives: the prefix may be left out.
pub record RateLimitOptions : Type 0 where
  pub capacity : ℕ
  pub refill_rate : ℕ
  pub key_prefix : Option Text

or_default : Option Text → Text
or_default none = codes "ratelimit"
or_default (some p) = p

-- the constructor
unfoldable pub new : RateLimitOptions → TokenBucketRateLimiter
unfolding or_default
new o = record {
  config = record {
    capacity = o.capacity;
    refill_rate = o.refill_rate;
    key_prefix = or_default o.key_prefix;
  };
  buckets = [];
}

-- `${keyPrefix}:${key}`
unfoldable pub bucket_key : RateLimitConfig → Text → Text
bucket_key c key = c.key_prefix ++ (codes ":" ++ key)

unfoldable pub refill : RateLimitConfig → BucketState → ℕ → BucketState
refill c state now = record {
  tokens =
      min_ℤ (state.tokens +ℤ sub_ℕ now state.last_refill *ℤ pos c.refill_rate)
        (pos (1000 * c.capacity));
  last_refill = now;
}

-- the bucket of a key, or a full one
unfoldable pub get_bucket : RateLimitConfig → Option BucketState → ℕ → BucketState
get_bucket c none now = record { tokens = pos (1000 * c.capacity); last_refill = now }
get_bucket c (some state) now = state

-- new Date(now + (capacity / refillRate) * 1000)
unfoldable pub full_at : RateLimitConfig → ℕ → Timestamp
full_at c now =
    if nat_eq c.refill_rate 0 then invalid else at (now + 1000 * c.capacity / c.refill_rate)

-- Math.ceil(deficit / refillRate), for a deficit above 0, in thousandths
unfoldable pub retry_seconds : RateLimitConfig → ℕ → Seconds
retry_seconds c deficit =
    if nat_eq c.refill_rate 0
    then infinite
    else finite ((deficit + (1000 * c.refill_rate - 1)) / (1000 * c.refill_rate))

-- new Date(now + retryAfter * 1000)
unfoldable pub retry_at : ℕ → Seconds → Timestamp
retry_at now (finite s) = at (now + s * 1000)
retry_at now infinite = invalid

-- The branch that allows: the tokens stay at 0 or more, so `Math.floor` is a quotient.
unfoldable pub allow : RateLimitConfig → ℕ → ℤ → RateLimitResult
unfolding full_at
allow c now left = record {
  allowed = true;
  remaining = pos_part left / 1000;
  reset_at = full_at c now;
  retry_after = none;
}

unfoldable pub deny : RateLimitConfig → ℕ → ℕ → RateLimitResult
unfolding retry_seconds retry_at
deny c now deficit = record {
  allowed = false;
  remaining = 0;
  reset_at = retry_at now (retry_seconds c deficit);
  retry_after = some (retry_seconds c deficit);
}

-- the rest of `check`, at the refilled bucket
unfoldable pub consume :
    TokenBucketRateLimiter → Text → BucketState → ℕ → ℕ → RateLimitResult × TokenBucketRateLimiter
unfolding allow deny
consume l bkey state n now =
    let left = state.tokens -ℤ pos (1000 * n) in
    if leb_ℤ (pos (1000 * n)) state.tokens
    then (
      allow l.config now left,
      record l { buckets = insert bkey (record state { tokens = left }) l.buckets },
    )
    else (deny l.config now (pos_part (pos (1000 * n) -ℤ state.tokens)), l)

unfoldable pub check :
    TokenBucketRateLimiter → Text → ℕ → ℕ → RateLimitResult × TokenBucketRateLimiter
unfolding consume refill get_bucket bucket_key
check l key n now =
    let bkey = bucket_key l.config key in
    let state = get_bucket l.config (lookup bkey l.buckets) now in
    consume l bkey (refill l.config state now) n now

unfoldable pub reset : TokenBucketRateLimiter → Text → TokenBucketRateLimiter
unfolding bucket_key
reset l key = record l { buckets = erase (bucket_key l.config key) l.buckets }
