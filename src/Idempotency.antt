-- ===== src/Idempotency.antt =====
-- packages/sdk/src/idempotency.ts: the replay cache of `IdempotencyGuard`. A method takes the clock's
-- readings, in whole milliseconds, and the object, and returns its result beside the new object. The
-- body of a response is of any type. `fingerprint` is modelled in Fingerprint.
pub mod Replay
pub mod Tests
use infrgate.Prelude.{ℕ, ◌+◌, ◌*◌, Option, none, some, [], leb, if◌then◌else◌}
use infrgate.Prelude.Text.{Text}
use infrgate.Prelude.Eq.{List-eq}
use infrgate.Prelude.Dict.{Dict, lookup, insert, erase}

pub record IdempotencyOptions : Type 0 where
  pub ttl_seconds : ℕ

pub record CachedResponse (A : Type 0) : Type 0 where
  pub status_code : ℕ
  pub body : A
  pub cached_at : ℕ

pub record CacheEntry (A : Type 0) : Type 0 where
  pub response : CachedResponse A
  pub expires_at : ℕ

pub record IdempotencyGuard (A : Type 0) : Type 0 where
  pub cache : Dict Text (CacheEntry A)
  pub options : IdempotencyOptions

abbrev or_else : Option ℕ → ℕ → ℕ
or_else none d = d
or_else (some n) d = n

module _ {A : Type 0} where
  -- the constructor, given the `ttlSeconds` of its options
  unfoldable pub new : Option ℕ → IdempotencyGuard A
  new ttl = record { cache = []; options = record { ttl_seconds = or_else ttl 3600 } }

  -- `get`, by the entry of the key
  unfoldable pub serve :
      IdempotencyGuard A
      → Text
      → Option (CacheEntry A)
      → ℕ
      → Option (CachedResponse A) × IdempotencyGuard A
  serve g key none now = (none, g)
  serve g key (some entry) now =
      if leb entry.expires_at now
      then (none, record g { cache = erase key g.cache })
      else (some entry.response, g)

  unfoldable pub get :
      IdempotencyGuard A → Text → ℕ → Option (CachedResponse A) × IdempotencyGuard A
  unfolding serve
  get g key now = serve g key (lookup key g.cache) now

  -- `Date.now()` at `now`, and `new Date()` at `cached_at`
  unfoldable pub set : IdempotencyGuard A → Text → A → ℕ → ℕ → ℕ → IdempotencyGuard A
  set g key response status now cached_at = record g {
    cache =
        insert key
          (record {
            response = record { status_code = status; body = response; cached_at = cached_at };
            expires_at = now + g.options.ttl_seconds * 1000;
          })
          g.cache;
  }

  unfoldable pub clear : IdempotencyGuard A → IdempotencyGuard A
  clear g = record g { cache = [] }
