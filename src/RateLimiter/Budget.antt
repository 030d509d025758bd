-- ===== src/RateLimiter/Budget.antt =====
-- The rate limit: what a key is granted over a stretch of time, whatever the other keys do.
use native.Mathlib.Nat.{zero-add}
use infrgate.Prelude.{
  ℕ, ◌+◌, ◌-◌, ◌*◌, ◌≤◌, ◌≡◌, ap, inl, inr, ◌⊎◌, ◌&&◌, Option, none, some, List, [], ◌∷◌, All,
  arith, Bool-cases, if◌then◌else◌,
}
use infrgate.Prelude.Int.{pos, pos_part, neg_part, ◌-ℤ◌, ◌≤ℤ◌, -ℤ_parts}
use infrgate.Prelude.Text.{Text}
use infrgate.Prelude.Eq.{◌==◌, List-eq, list_eq_iff}
use infrgate.Prelude.Dict.{lookup}
use infrgate.RateLimiter.{
  RateLimitConfig, BucketState, TokenBucketRateLimiter, bucket_key, refill, get_bucket, check, new,
  RateLimitOptions,
}
use infrgate.RateLimiter.Bucket.{refill_cases, rate_mono}
use infrgate.RateLimiter.Spec.{
  level, config-check, lookup-check, allowed-check, check_denied, bucket_key_eq,
}

pub record Request : Type 0 where
  pub key : Text
  pub tokens : ℕ
  pub now : ℕ

-- the tokens that one check grants to a key
abbrev pub grant : TokenBucketRateLimiter → Request → Text → ℕ
grant l r k = if (check l r.key r.tokens r.now).0.allowed && r.key == k then r.tokens else 0

-- the tokens that a sequence of checks grants to a key
unfoldable pub granted : TokenBucketRateLimiter → List Request → Text → ℕ
granted l [] k = 0
granted l (r ∷ rs) k = grant l r k + granted (check l r.key r.tokens r.now).1 rs k

abbrev pub Within : ℕ → ℕ → Request → Type 0
Within t0 t1 r = (t0 ≤ r.now) × (r.now ≤ t1)

-- At most `total` tokens are left to grant until `t1`: in thousandths, what is in the bucket, or a
-- full bucket if there is none, with what accrues until then.
abbrev Covers : RateLimitConfig → ℕ → ℕ → Option BucketState → ℕ → Type 0
Covers c t0 t1 none total =
    1000 * total + t0 * c.refill_rate ≤ 1000 * c.capacity + t1 * c.refill_rate
Covers c t0 t1 (some b) total =
    1000 * total + b.last_refill * c.refill_rate + neg_part b.tokens
    ≤ pos_part b.tokens + t1 * c.refill_rate

abbrev Sound : ℕ → ℕ → Option BucketState → Type 0
Sound t0 t1 none = Unit
Sound t0 t1 (some b) = (pos 0 ≤ℤ b.tokens) × (t0 ≤ b.last_refill) × (b.last_refill ≤ t1)

abbrev bucket_of : TokenBucketRateLimiter → Text → Option BucketState
bucket_of l k = lookup (bucket_key l.config k) l.buckets

-- A grant of `n` leaves a sound bucket, and what that covers the old one covers with the `n`.
grant-Covers :
    (c : RateLimitConfig) (t0 t1 : ℕ) (o : Option BucketState) (n now total : ℕ)
    → let z = (refill c (get_bucket c o now) now).tokens in
      t0 ≤ now
      → now ≤ t1
      → pos (1000 * n) ≤ℤ z
      → Covers c t0 t1 (some (record { tokens = z -ℤ pos (1000 * n); last_refill = now })) total
      → Covers c t0 t1 o (n + total)
unfolding get_bucket
grant-Covers c t0 t1 none n now total p q e h =
    let full : BucketState = record { tokens = pos (1000 * c.capacity); last_refill = now } in
    omega (
      arith,
      -ℤ_parts (refill c full now).tokens (pos (1000 * n)),
      refill_cases c full now,
      rate_mono t0 now c.refill_rate p,
    )
grant-Covers c t0 t1 (some b) n now total p q e h =
    omega (arith, -ℤ_parts (refill c b now).tokens (pos (1000 * n)), refill_cases c b now)

-- What a check does to the bucket of a key: nothing and no grant, or a grant that its level covers.
step_cases :
    (l : TokenBucketRateLimiter) (r : Request) (k : Text)
    → let l' = (check l r.key r.tokens r.now).1 in
      (grant l r k ≡ 0) × (bucket_of l' k ≡ bucket_of l k)
      ⊎ (grant l r k ≡ r.tokens)
        × (pos (1000 * r.tokens) ≤ℤ level l k r.now)
        × (bucket_of l' k
            ≡ some
                (record { tokens = level l k r.now -ℤ pos (1000 * r.tokens); last_refill = r.now }))
step_cases l r k = elim (Bool-cases (check l r.key r.tokens r.now).0.allowed) [
  | inr e ↦ inl (rw e, rw (check_denied l r.key r.tokens r.now e))
  | inl e ↦ elim (Bool-cases (r.key == k)) [
    | inr f ↦ inl (
      rw (e, f),
      rw (
        config-check l r.key r.tokens r.now,
        lookup-check l r.key r.tokens r.now,
        e,
        bucket_key_eq l.config r.key k,
        f,
      ),
    )
    | inl f ↦
        let q = (list_eq_iff r.key k).0 f in
        inr (
          rw (e, f),
          rw (← q) (ground (arith, allowed-check l r.key r.tokens r.now)),
          rw (config-check l r.key r.tokens r.now, lookup-check l r.key r.tokens r.now, e)
              (rw (bucket_key_eq l.config r.key k, f) (rw q)),
        )
  ]
]

-- the two outcomes of a check, under an induction over those that follow
module _ (t0 t1 : ℕ) (c c' : RateLimitConfig) (o o' : Option BucketState) (g total : ℕ) where
  Covers-unchanged :
      c' ≡ c → g ≡ 0 → o' ≡ o → Covers c' t0 t1 o' total → Covers c t0 t1 o (g + total)
  Covers-unchanged e z f h = rw (z, zero-add, ← e, ← f) h

  Covers-granted :
      (n now : ℕ)
      → let z = (refill c (get_bucket c o now) now).tokens in
        c' ≡ c
        → g ≡ n
        → t0 ≤ now
        → now ≤ t1
        → pos (1000 * n) ≤ℤ z
        → o' ≡ some (record { tokens = z -ℤ pos (1000 * n); last_refill = now })
        → Covers c' t0 t1 o' total
        → Covers c t0 t1 o (g + total)
  Covers-granted n now e z p q enough f h =
      rw z (grant-Covers c t0 t1 o n now total p q enough (rw (e, f) at h))

Covers-zero :
    (c : RateLimitConfig) (t0 t1 : ℕ) (o : Option BucketState)
    → t0 ≤ t1
    → Sound t0 t1 o
    → Covers c t0 t1 o 0
Covers-zero c t0 t1 none p s = omega (arith, rate_mono t0 t1 c.refill_rate p)
Covers-zero c t0 t1 (some b) p s = omega (arith, rate_mono b.last_refill t1 c.refill_rate s.2)

granted-Covers :
    (t0 t1 : ℕ) (l : TokenBucketRateLimiter) (rs : List Request) (k : Text)
    → t0 ≤ t1
    → All (Within t0 t1) rs
    → Sound t0 t1 (bucket_of l k)
    → Covers l.config t0 t1 (bucket_of l k) (granted l rs k)
unfolding granted level
granted-Covers t0 t1 l [] k p w s = Covers-zero l.config t0 t1 (bucket_of l k) p s
granted-Covers t0 t1 l (r ∷ rs) k p w s =
    let l' = (check l r.key r.tokens r.now).1 in
    let same = config-check l r.key r.tokens r.now in
    let ih = granted-Covers t0 t1 l' rs k p w.1 in
    elim (step_cases l r k) [
      | inl (z, f) ↦
          Covers-unchanged t0 t1 l.config l'.config (bucket_of l k) (bucket_of l' k) (grant l r k)
            (granted l' rs k) same z f (ih (rw f s))
      | inr (z, enough, f) ↦
          Covers-granted t0 t1 l.config l'.config (bucket_of l k) (bucket_of l' k) (grant l r k)
            (granted l' rs k) r.tokens r.now same z w.0.0 w.0.1 enough f
            (ih (
              rw f
                (omega (arith, w.0, enough, -ℤ_parts (level l k r.now) (pos (1000 * r.tokens))))))
    ]

-- Between two times a key that starts with a full bucket is granted at most the capacity, and what
-- the refill rate gives over that time, by any sequence of checks of any keys, at any readings of
-- the clock in between, in any order.
pub granted_bound :
    (t0 t1 : ℕ) (o : RateLimitOptions) (rs : List Request) (k : Text)
    → t0 ≤ t1
    → All (Within t0 t1) rs
    → 1000 * granted (new o) rs k ≤ 1000 * o.capacity + (t1 - t0) * o.refill_rate
unfolding new lookup
granted_bound t0 t1 o rs k p w =
    let split : t1 ≡ t0 + (t1 - t0) = omega arith in
    omega (arith, granted-Covers t0 t1 (new o) rs k p w tt, ap (λ (t : ℕ). t * o.refill_rate) split)
