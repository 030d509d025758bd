-- ===== src/RateLimiter/Retry.antt =====
-- `retryAfter` and `resetAt`: what a denied caller is told.
use infrgate.Prelude.{
  ℕ, ◌+◌, ◌-◌, ◌*◌, ◌/◌, ◌≤◌, ◌<◌, ◌≡◌, refl, ap, ◌⊎◌, inl, inr, true, false, none, some, arith,
  Option-cases, le→leb, lt→leb, if◌then◌else◌,
}
use infrgate.Prelude.Int.{ℤ, pos, pos_part, neg_part, ◌-ℤ◌, ◌≤ℤ◌, leb_ℤ, -ℤ_parts}
use infrgate.Prelude.Text.{Text}
use infrgate.Prelude.Eq.{List-eq}
use infrgate.Prelude.Dict.{lookup}
use infrgate.RateLimiter.{
  RateLimitConfig, BucketState, TokenBucketRateLimiter, finite, at, bucket_key, refill,
  retry_seconds, check,
}
use infrgate.RateLimiter.Bucket.{refill_cases, refill-refill, last_refill-refill, rate_mono}
use infrgate.RateLimiter.Account.{IsExact}
use infrgate.RateLimiter.Spec.{level, level-le, level_of_stored, full_level, allowed-check}

-- A quotient rounded up: the least number of thousands of the rate that covers the deficit.
ceil_bounds :
    (d r s : ℕ)
    → 0 < r
    → s ≡ (d + (1000 * r - 1)) / (1000 * r)
    → (d ≤ 1000 * s * r) × (1000 * s * r < d + 1000 * r)
ceil_bounds d r s p e = rw e (grind arith)

-- Between two readings of the clock a level grows by the refill rate, or is full at the second.
abbrev pub Grown : RateLimitConfig → ℤ → ℤ → ℕ → ℕ → Type 0
Grown c z z' now later =
    (pos_part z' + neg_part z + now * c.refill_rate
      ≤ neg_part z' + pos_part z + later * c.refill_rate)
    × ((pos_part z' + neg_part z + now * c.refill_rate
          ≡ neg_part z' + pos_part z + later * c.refill_rate)
        ⊎ (pos_part z' ≡ neg_part z' + 1000 * c.capacity))

refill_growth :
    (c : RateLimitConfig) (b : BucketState) (now later : ℕ)
    → now ≤ later
    → Grown c (refill c b now).tokens (refill c (refill c b now) later).tokens now later
refill_growth c b now later h =
    let reading = ap (λ (t : ℕ). t * c.refill_rate) (last_refill-refill c b now) in
    let mono = rate_mono now later c.refill_rate h in
    elim (refill_cases c (refill c b now) later) [
      | inl (grown, _) ↦ (omega (arith, reading, grown), inl (omega (arith, reading, grown)))
      | inr (full, below) ↦ (omega (arith, reading, below), inr full)
    ]

pub level_growth :
    (l : TokenBucketRateLimiter) (key : Text) (now later : ℕ)
    → now ≤ later
    → Grown l.config (level l key now) (level l key later) now later
level_growth l key now later h = elim (Option-cases (lookup (bucket_key l.config key) l.buckets)) [
  | inl e ↦
      rw (full_level l key now e, full_level l key later e)
        (omega (arith, rate_mono now later l.config.refill_rate h), inr (omega arith))
  | inr (b, e) ↦
      rw
        (
          level_of_stored l l.config key b now refl e,
          level_of_stored l l.config key b later refl e,
          ← refill-refill l.config b now later h,
        )
        (refill_growth l.config b now later h)
]

module _ (l : TokenBucketRateLimiter) (key : Text) (n now : ℕ) where
  retry_after-check : (check l key n now).0.retry_after ≡ (
      if leb_ℤ (pos (1000 * n)) (level l key now)
      then none
      else some (retry_seconds l.config (pos_part (pos (1000 * n) -ℤ level l key now))))
  unfolding check level
  retry_after-check = ground arith

  -- what a finite `retryAfter` says: there is a deficit, and its quotient by the rate
  retry_after_inv :
      (s : ℕ)
      → (check l key n now).0.retry_after ≡ some (finite s)
      → let d = pos_part (pos (1000 * n) -ℤ level l key now) in
        (0 < l.config.refill_rate)
        × (pos_part (level l key now) + d ≡ 1000 * n + neg_part (level l key now))
        × (s ≡ (d + (1000 * l.config.refill_rate - 1)) / (1000 * l.config.refill_rate))
  unfolding retry_seconds
  retry_after_inv s h =
      let parts = -ℤ_parts (pos (1000 * n)) (level l key now) in
      ground (arith, retry_after-check, parts)

  -- Where the program's arithmetic is exact, at readings of the clock at whole eighths of a second: a
  -- denied caller who asks for no more than the capacity, and comes back when nothing has been granted in
  -- between, is served from the `retryAfter` seconds on, and not a whole second earlier.
  pub retry_exact :
      (later s : ℕ)
      → IsExact l key n now
      → IsExact l key n later
      → n ≤ l.config.capacity
      → now ≤ later
      → (check l key n now).0.retry_after ≡ some (finite s)
      → (now + 1000 * s ≤ later → (check l key n later).0.allowed ≡ true)
        × (later + 1000 ≤ now + 1000 * s → (check l key n later).0.allowed ≡ false)
  retry_exact later s exact exact' fits h e =
      let (pays, deficit, quotient) = retry_after_inv s e in
      let r = l.config.refill_rate in
      let rounded = ceil_bounds _ r s pays quotient in
      let growth = level_growth l key now later h in
      (
        λ late. rw (allowed-check l key n later) (
            le→leb _ _
              (omega (arith, deficit, rounded, growth, rate_mono (now + 1000 * s) later r late))),
        λ early. rw (allowed-check l key n later) (
            lt→leb _ _ (
              omega (
                arith,
                deficit,
                rounded,
                growth,
                rate_mono (later + 1000) (now + 1000 * s) r early,
              ))),
      )

  reset_at-check :
      (s : ℕ)
      → (check l key n now).0.retry_after ≡ some (finite s)
      → (check l key n now).0.reset_at ≡ at (now + s * 1000)
  unfolding check
  reset_at-check s e = ground arith

  -- Where the program's arithmetic is exact, at readings of the clock at whole eighths of a second, a
  -- denied caller's `resetAt` is the time at which the request itself would pass: where the capacity is
  -- larger than the request by the tokens of a second, the bucket is not full by then.
  pub reset_at_not_full :
      (s : ℕ)
      → IsExact l key n now
      → n + l.config.refill_rate ≤ l.config.capacity
      → (check l key n now).0.retry_after ≡ some (finite s)
      → ((check l key n now).0.reset_at ≡ at (now + s * 1000))
        × ¬ (pos (1000 * l.config.capacity) ≤ℤ level l key (now + s * 1000))
  reset_at_not_full s exact room e =
      let (pays, deficit, quotient) = retry_after_inv s e in
      let r = l.config.refill_rate in
      let rounded = ceil_bounds _ r s pays quotient in
      let growth = level_growth l key now (now + s * 1000) (omega arith) in
      (reset_at-check s e, omega (arith, deficit, rounded, growth))

  -- A request for more than the capacity is denied at every time, and is still told to come back.
  pub over_capacity :
      l.config.capacity < n
      → ((check l key n now).0.allowed ≡ false)
        × ((check l key n now).0.retry_after
            ≡ some (retry_seconds l.config (pos_part (pos (1000 * n) -ℤ level l key now))))
  over_capacity h =
      let denied = lt→leb _ _ (omega (arith, level-le l key now)) in
      (rw (allowed-check l key n now) denied, rw retry_after-check (rw denied))
