-- ===== src/Idempotency/Replay.antt =====
-- What a client of the cache gets back.
use infrgate.Prelude.{
  ℕ, ◌+◌, ◌*◌, ◌≤◌, ◌≡◌, refl, Option, none, some, arith, leb, ltb, if◌then◌else◌,
}
use infrgate.Prelude.Text.{Text}
use infrgate.Prelude.Eq.{List-eq, ◌==◌, list_eq_iff}
use infrgate.Prelude.Dict.{lookup, lookup-insert, lookup-erase}
use infrgate.Idempotency.{CachedResponse, CacheEntry, IdempotencyGuard, serve, get, set}

module _ {A : Type 0} where
  -- What the cache shows of a key at a time: its response, until the entry expires.
  abbrev live : Option (CacheEntry A) → ℕ → Option (CachedResponse A)
  live none now = none
  live (some entry) now = if leb entry.expires_at now then none else some entry.response

  unfoldable pub view : IdempotencyGuard A → Text → ℕ → Option (CachedResponse A)
  view g key now = live (lookup key g.cache) now

  serve-live :
      (g : IdempotencyGuard A) (key : Text) (o : Option (CacheEntry A)) (now : ℕ)
      → (serve g key o now).0 ≡ live o now
  unfolding serve
  serve-live g key none now = refl
  serve-live g key (some entry) now = ground arith

  -- what `get` keeps of a key: an entry that is there, unless it was read after its expiry
  serve-lookup :
      (g : IdempotencyGuard A) (key j : Text) (now : ℕ)
      → (later : ℕ) → now ≤ later
      → live (lookup j (serve g key (lookup key g.cache) now).1.cache) later
        ≡ live (lookup j g.cache) later
  unfolding serve
  serve-lookup g key j now later h = ground (arith, lookup-erase key j g.cache, list_eq_iff key j)

  -- `get` returns what the cache shows, and an eviction on the way changes nothing that the cache will
  -- show of any key, at this reading of the clock or a later one.
  pub get-view :
      (g : IdempotencyGuard A) (key j : Text) (now later : ℕ)
      → now ≤ later
      → ((get g key now).0 ≡ view g key now) × (view (get g key now).1 j later ≡ view g j later)
  unfolding get view
  get-view g key j now later h =
      (serve-live g key (lookup key g.cache) now, serve-lookup g key j now later h)

  -- From a `set` on, its key shows the new response for `ttlSeconds` and nothing after that, and every
  -- other key shows what it did.
  pub view-set :
      (g : IdempotencyGuard A) (key j : Text) (body : A) (status now cached_at later : ℕ)
      → view (set g key body status now cached_at) j later ≡ (
          if key == j
          then (if ltb later (now + g.options.ttl_seconds * 1000)
              then some (record { status_code = status; body = body; cached_at = cached_at })
              else none)
          else view g j later)
  unfolding view set
  view-set g key j body status now cached_at later = rw lookup-insert (ground arith)

  -- A key that `get` shows nothing of is gone from the cache afterwards.
  pub get_evicts :
      (g : IdempotencyGuard A) (key : Text) (now : ℕ)
      → view g key now ≡ none
      → lookup key (get g key now).1.cache ≡ none
  unfolding get serve view
  get_evicts g key now h = ground (arith, lookup-erase key key g.cache, list_eq_iff key key)
