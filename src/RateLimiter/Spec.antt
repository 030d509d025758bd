-- ===== src/RateLimiter/Spec.antt =====
-- The limiter as its callers see it: an account of tokens for each key.
use infrgate.Prelude.{
  ℕ, ◌*◌, ◌≡◌, refl, ◌≢◌, ◌∙◌, inl, inr, true, false, none, some, arith, Bool-cases, if◌then◌else◌,
}
use infrgate.Prelude.Int.{ℤ, pos, sub_ℕ, ◌+ℤ◌, ◌-ℤ◌, ◌*ℤ◌, ◌≤ℤ◌, leb_ℤ, min_ℤ, eq_of_parts}
use infrgate.Prelude.Text.{Text, append_cancel, codes}
use infrgate.Prelude.Eq.{◌==◌, List-eq, list_eq_iff, ==_refl}
use infrgate.Prelude.Dict.{lookup, lookup-insert, lookup-erase}
use infrgate.RateLimiter.{
  RateLimitConfig, BucketState, TokenBucketRateLimiter, bucket_key, refill, get_bucket, check,
  reset,
}
use infrgate.RateLimiter.Bucket.{refill_cases, refill-le}

-- What a key may spend at a time, in thousandths of a token.
unfoldable pub level : TokenBucketRateLimiter → Text → ℕ → ℤ
level l key now =
    (refill l.config (get_bucket l.config (lookup (bucket_key l.config key) l.buckets) now)
      now).tokens

-- a level never passes the capacity
pub level-le :
    (l : TokenBucketRateLimiter) (key : Text) (now : ℕ)
    → level l key now ≤ℤ pos (1000 * l.config.capacity)
unfolding level
level-le l key now =
    refill-le l.config (get_bucket l.config (lookup (bucket_key l.config key) l.buckets) now) now

-- keys do not share buckets
pub bucket_key_injective :
    (c : RateLimitConfig) (j k : Text) → bucket_key c j ≡ bucket_key c k → j ≡ k
unfolding bucket_key
bucket_key_injective c j k h = append_cancel (codes ":") j k (append_cancel c.key_prefix _ _ h)

module _ (l : TokenBucketRateLimiter) (key : Text) (n now : ℕ) where
  pub config-check : (check l key n now).1.config ≡ l.config
  unfolding check
  config-check = ground arith

  pub allowed-check : (check l key n now).0.allowed ≡ leb_ℤ (pos (1000 * n)) (level l key now)
  unfolding check level
  allowed-check = ground arith

  -- the bucket that a check leaves for a key of the map
  pub lookup-check :
      (j : Text)
      → lookup j (check l key n now).1.buckets ≡ (
          if (check l key n now).0.allowed
          then (if bucket_key l.config key == j
              then some (record { tokens = level l key now -ℤ pos (1000 * n); last_refill = now })
              else lookup j l.buckets)
          else lookup j l.buckets)
  unfolding check level
  lookup-check j = elim (Bool-cases (leb_ℤ (pos (1000 * n)) (level l key now))) [
    | inl h ↦ rw h (simp lookup-insert)
    | inr h ↦ rw h
  ]

  pub check_denied : (check l key n now).0.allowed ≡ false → (check l key n now).1 ≡ l
  unfolding check
  check_denied h = ground arith

pub bucket_key_eq :
    (c : RateLimitConfig) (k j : Text) → (bucket_key c k == bucket_key c j) ≡ (k == j)
bucket_key_eq c k j = elim (Bool-cases (k == j)) [
  | inl e ↦ rw e (rw ((list_eq_iff k j).0 e) (==_refl (bucket_key c j)))
  | inr e ↦ elim (Bool-cases (bucket_key c k == bucket_key c j)) [
    | inl f ↦ ground (arith, list_eq_iff k j, bucket_key_injective c k j ((list_eq_iff _ _).0 f))
    | inr f ↦ rw e f
  ]
]

ne→eq_false : (k j : Text) → j ≢ k → (k == j) ≡ false
ne→eq_false k j h = ground (arith, list_eq_iff k j)

pub level_of_stored :
    (m : TokenBucketRateLimiter) (c : RateLimitConfig) (j : Text) (b : BucketState) (t : ℕ)
    → m.config ≡ c
    → lookup (bucket_key c j) m.buckets ≡ some b
    → level m j t ≡ (refill c b t).tokens
unfolding level refill get_bucket
level_of_stored m c j b t e h = rw (e, h)

-- the level rests on the configuration and on the key's bucket alone
level_of_lookup :
    (l m : TokenBucketRateLimiter) (j : Text) (t : ℕ)
    → l.config ≡ m.config
    → lookup (bucket_key m.config j) l.buckets ≡ lookup (bucket_key m.config j) m.buckets
    → level l j t ≡ level m j t
unfolding level refill
level_of_lookup l m j t c e = rw c (rw e)

module _ (l : TokenBucketRateLimiter) (key : Text) (n now : ℕ) where
  -- A check of one key leaves what every other key may spend, at any time, as it was.
  pub level-check_ne : (j : Text) (t : ℕ) → j ≢ key → level (check l key n now).1 j t ≡ level l j t
  level-check_ne j t h = elim (Bool-cases (check l key n now).0.allowed) [
    | inl e ↦ level_of_lookup (check l key n now).1 l j t (config-check l key n now) (
        lookup-check l key n now _
        ∙ (rw e (rw (bucket_key_eq l.config key j) (rw (ne→eq_false key j h)))))
    | inr e ↦ rw (check_denied l key n now e)
  ]

  pub level_after :
      (later : ℕ)
      → (check l key n now).0.allowed ≡ true
      → level (check l key n now).1 key later
        ≡ min_ℤ
            (level l key now -ℤ pos (1000 * n) +ℤ sub_ℕ later now *ℤ pos l.config.refill_rate)
            (pos (1000 * l.config.capacity))
  unfolding refill
  level_after later e =
      level_of_stored (check l key n now).1 l.config key
        (record { tokens = level l key now -ℤ pos (1000 * n); last_refill = now }) later
        (config-check l key n now)
        (lookup-check l key n now (bucket_key l.config key)
          ∙ rw e (rw (==_refl (bucket_key l.config key))))

pub full_level :
    (l : TokenBucketRateLimiter) (j : Text) (t : ℕ)
    → lookup (bucket_key l.config j) l.buckets ≡ none
    → level l j t ≡ pos (1000 * l.config.capacity)
unfolding level refill get_bucket
full_level l j t h = rw h (
    omega (
      arith,
      eq_of_parts,
      refill_cases l.config (record { tokens = pos (1000 * l.config.capacity); last_refill = t }) t,
    ))

-- After a reset the key may spend the whole capacity, and the other keys what they could.
pub level-reset :
    (l : TokenBucketRateLimiter) (key j : Text) (t : ℕ)
    → level (reset l key) j t ≡ (if key == j then pos (1000 * l.config.capacity) else level l j t)
unfolding reset
level-reset l key j t =
    let left = lookup-erase (bucket_key l.config key) (bucket_key l.config j) l.buckets in
    elim (Bool-cases (key == j)) [
      | inl e ↦
          rw e (full_level (reset l key) j t (left ∙ rw (bucket_key_eq l.config key j) (rw e)))
      | inr e ↦ rw e (
          level_of_lookup (reset l key) l j t refl
            (left ∙ rw (bucket_key_eq l.config key j) (rw e)))
    ]
