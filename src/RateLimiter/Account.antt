-- ===== src/RateLimiter/Account.antt =====
-- `check` as an account of tokens, where the arithmetic of the program is exact.
use infrgate.Prelude.{
  ℕ, zero, suc, ◌+◌, ◌*◌, ◌^◌, ◌%◌, ◌≡◌, ◌≤◌, refl, ◌⊎◌, inl, inr, true, false, Option, none, some,
  arith, Bool-cases, Option-cases,
}
use mathlib.Core.Path.{subst}
use infrgate.Prelude.Int.{
  ℤ, pos, negsuc, pos_part, neg_part, sub_ℕ, ◌+ℤ◌, ◌-ℤ◌, ◌*ℤ◌, ◌≤ℤ◌, min_ℤ, -ℤ_parts,
}
use infrgate.Prelude.Text.{Text}
use infrgate.Prelude.Eq.{List-eq}
use infrgate.Prelude.Dict.{lookup}
use infrgate.RateLimiter.{
  RateLimitConfig, BucketState, TokenBucketRateLimiter, bucket_key, refill, check,
}
use infrgate.RateLimiter.Bucket.{refill_cases}
use infrgate.RateLimiter.Spec.{
  level, level_of_stored, full_level, allowed-check, level_after, check_denied,
}

-- a number of thousandths that is a whole number of eighths
abbrev pub InEighths : ℤ → Type 0
InEighths z = (pos_part z % 125 ≡ 0) × (neg_part z % 125 ≡ 0)

-- A bucket that is filled up to eighths of a token at an eighth of a second, and far below what a binary
-- fraction of the language holds.
abbrev pub IsExactBucket : RateLimitConfig → Option BucketState → Type 0
IsExactBucket c none = Unit
IsExactBucket c (some b) =
    InEighths b.tokens
    × (b.last_refill % 125 ≡ 0)
    × (neg_part b.tokens ≤ 2 ^ 50)
    × (b.last_refill * c.refill_rate ≤ 2 ^ 50)

-- Where the clock is read at whole eighths of a second, each number that the program computes is a whole
-- number of eighths, or a quotient that is rounded up to the same whole number, and small enough to be
-- exact, so that it is the number here.
pub record IsExact (l : TokenBucketRateLimiter) (key : Text) (n now : ℕ) : Type 0 where
  pub bucket : IsExactBucket l.config (lookup (bucket_key l.config key) l.buckets)
  pub reading : now % 125 ≡ 0
  pub reading_small : now * l.config.refill_rate ≤ 2 ^ 50
  pub capacity_small : l.config.capacity ≤ 2 ^ 40
  pub tokens_small : n ≤ 2 ^ 40

one_sided : (z : ℤ) → (pos_part z ≡ 0) ⊎ (neg_part z ≡ 0)
one_sided (pos k) = inr refl
one_sided (negsuc k) = inl refl

mul_eighths : (m r : ℕ) → m % 125 ≡ 0 → (m * r) % 125 ≡ 0
mul_eighths m zero h = omega arith
mul_eighths m (suc r) h =
    let next : m * suc r ≡ m * r + m = grind arith in omega (arith, h, next, mul_eighths m r h)

refill-InEighths :
    (c : RateLimitConfig) (b : BucketState) (now : ℕ)
    → InEighths b.tokens
    → b.last_refill % 125 ≡ 0
    → now % 125 ≡ 0
    → InEighths (refill c b now).tokens
refill-InEighths c b now h t r = omega (
  arith,
  h,
  mul_eighths b.last_refill c.refill_rate t,
  mul_eighths now c.refill_rate r,
  one_sided (refill c b now).tokens,
  refill_cases c b now,
)

less-InEighths : (z : ℤ) (n : ℕ) → InEighths z → InEighths (z -ℤ pos (1000 * n))
less-InEighths z n h =
    omega (arith, h, one_sided (z -ℤ pos (1000 * n)), -ℤ_parts z (pos (1000 * n)))

module _ (l : TokenBucketRateLimiter) (key : Text) (n now : ℕ) where
  level-InEighths : IsExact l key n now → InEighths (level l key now)
  level-InEighths exact = elim (Option-cases (lookup (bucket_key l.config key) l.buckets)) [
    | inl e ↦ rw (full_level l key now e) (omega arith, omega arith)
    | inr (b, e) ↦
        let held = subst (IsExactBucket l.config) e exact.bucket in
        rw (level_of_stored l l.config key b now refl e)
          (refill-InEighths l.config b now held.0 held.1 exact.reading)
  ]

  -- the bucket of an allowed request
  paid : BucketState
  paid = record { tokens = level l key now -ℤ pos (1000 * n); last_refill = now }

  level_after_paid :
      (later : ℕ)
      → (check l key n now).0.allowed ≡ true
      → level (check l key n now).1 key later ≡ (refill l.config paid later).tokens
  unfolding paid refill
  level_after_paid later e = level_after l key n now later e

  -- Where the program's arithmetic is exact, a request is allowed exactly when the key's level covers it.
  -- An allowed one is paid for at once: from then on the bucket grows from the rest at the refill rate, up
  -- to the capacity, and the rest is again a number of eighths. A denied one changes nothing. It is exact
  -- where the clock is read at whole eighths of a second, the bucket was last filled at one and holds whole
  -- eighths of a token, and the sizes are bounded as `IsExact` says.
  pub check_account :
      (later : ℕ)
      → IsExact l key n now
      → later % 125 ≡ 0
      → (((check l key n now).0.allowed ≡ true)
          × (pos (1000 * n) ≤ℤ level l key now)
          × (level (check l key n now).1 key later
              ≡ min_ℤ
                  (level l key now -ℤ pos (1000 * n) +ℤ sub_ℕ later now *ℤ pos l.config.refill_rate)
                  (pos (1000 * l.config.capacity)))
          × InEighths (level l key now -ℤ pos (1000 * n))
          × InEighths (level (check l key n now).1 key later))
        ⊎ (((check l key n now).0.allowed ≡ false)
            × ¬ (pos (1000 * n) ≤ℤ level l key now)
            × ((check l key n now).1 ≡ l))
  unfolding paid
  check_account later exact at_eighth = elim (Bool-cases (check l key n now).0.allowed) [
    | inl e ↦
        let rest = less-InEighths (level l key now) n (level-InEighths exact) in
        inl (
          e,
          ground (arith, allowed-check l key n now),
          level_after l key n now later e,
          rest,
          rw (level_after_paid later e)
              (refill-InEighths l.config paid later rest exact.reading at_eighth),
        )
    | inr e ↦ inr (e, ground (arith, allowed-check l key n now), check_denied l key n now e)
  ]
