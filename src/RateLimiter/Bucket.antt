-- ===== src/RateLimiter/Bucket.antt =====
-- `refill`: what a bucket holds after it.
use infrgate.Prelude.{ℕ, ◌+◌, ◌*◌, ◌≤◌, ◌≡◌, ◌⊎◌, inl, inr, arith, ap, refl}
use infrgate.Prelude.Int.{
  ℤ, pos, pos_part, neg_part, sub_ℕ, ◌+ℤ◌, ◌*ℤ◌, ◌≤ℤ◌, min_ℤ_cases, +ℤ_parts, *ℤ_parts, eq_of_parts,
}
use infrgate.RateLimiter.{RateLimitConfig, BucketState, refill}

-- What a bucket would hold with no capacity: its tokens and the elapsed time's, or less if the clock
-- stepped back.
abbrev pub Accrued : RateLimitConfig → BucketState → ℕ → ℤ → Type 0
Accrued c b now z =
    pos_part z + neg_part b.tokens + b.last_refill * c.refill_rate
    ≡ neg_part z + pos_part b.tokens + now * c.refill_rate

module _ (c : RateLimitConfig) (b : BucketState) (now : ℕ) where
  -- A refilled bucket has accrued the tokens of the elapsed time, or is full below that.
  pub refill_cases :
      Accrued c b now (refill c b now).tokens × ((refill c b now).tokens ≤ℤ pos (1000 * c.capacity))
      ⊎ (pos_part (refill c b now).tokens ≡ neg_part (refill c b now).tokens + 1000 * c.capacity)
        × (pos_part (refill c b now).tokens + neg_part b.tokens + b.last_refill * c.refill_rate
            ≤ neg_part (refill c b now).tokens + pos_part b.tokens + now * c.refill_rate)
  unfolding refill
  refill_cases =
      let grown : ℤ = b.tokens +ℤ sub_ℕ now b.last_refill *ℤ pos c.refill_rate in
      let sum = +ℤ_parts b.tokens (sub_ℕ now b.last_refill *ℤ pos c.refill_rate) in
      let product = *ℤ_parts now b.last_refill c.refill_rate in
      elim (min_ℤ_cases grown (pos (1000 * c.capacity))) [
        | inl (e, h) ↦ inl (rw e (omega (arith, sum, product)), rw e h)
        | inr (e, h) ↦ inr (rw e (omega arith), rw e (omega (arith, sum, product, h)))
      ]

pub last_refill-refill :
    (c : RateLimitConfig) (b : BucketState) (now : ℕ) → (refill c b now).last_refill ≡ now
unfolding refill
last_refill-refill c b now = refl

-- the capacity is never passed
pub refill-le :
    (c : RateLimitConfig) (b : BucketState) (now : ℕ)
    → (refill c b now).tokens ≤ℤ pos (1000 * c.capacity)
refill-le c b now = omega (arith, refill_cases c b now)

-- elapsed times add up, a later one is no shorter
pub rate_mono : (m n r : ℕ) → m ≤ n → m * r ≤ n * r
rate_mono m n r h = grind arith

refill-refill_tokens :
    (c : RateLimitConfig) (b : BucketState) (now later : ℕ)
    → now ≤ later
    → (refill c (refill c b now) later).tokens ≡ (refill c b later).tokens
refill-refill_tokens c b now later h = omega (
  arith,
  eq_of_parts,
  rate_mono now later c.refill_rate h,
  refill_cases c b now,
  ap (λ (t : ℕ). t * c.refill_rate) (last_refill-refill c b now),
  refill_cases c (refill c b now) later,
  refill_cases c b later,
)

-- A refill on the way makes no difference: only the last reading of the clock matters.
pub refill-refill :
    (c : RateLimitConfig) (b : BucketState) (now later : ℕ)
    → now ≤ later
    → refill c (refill c b now) later ≡ refill c b later
unfolding refill
refill-refill c b now later h =
    λ i. record { tokens = refill-refill_tokens c b now later h i; last_refill = later }
