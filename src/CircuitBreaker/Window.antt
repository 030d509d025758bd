-- ===== src/CircuitBreaker/Window.antt =====
-- When a closed circuit opens: the failures of the sliding window.
use infrgate.Prelude.{
  ℕ, ◌≤◌, ◌≡◌, refl, sym, ◌⊎◌, ◌||◌, inl, inr, Bool, true, false, List, [], ◌∷◌, ◌++◌, filter,
  length, arith, leb,
}
use infrgate.CircuitBreaker.{
  closed, opened, is_opened, in_window, FailureWindow, CircuitBreakerConfig, ProviderCircuitBreaker,
  record_failure,
}

-- The failures of a run, recorded one after the other.
unfoldable pub run_failures : List FailureWindow → ProviderCircuitBreaker → ProviderCircuitBreaker
run_failures [] b = b
run_failures (f ∷ fs) b = run_failures fs (record_failure f.timestamp f.error b)

-- The promise, over the whole history, nothing of it forgotten: at one of the failures, at least the
-- threshold of all those so far lie in the window that ends there.
unfoldable pub overflows : CircuitBreakerConfig → List FailureWindow → List FailureWindow → Bool
overflows c seen [] = false
overflows c seen (f ∷ fs) =
    let all = seen ++ f ∷ [] in
    leb c.failure_threshold (length (filter (in_window c f.timestamp) all)) || overflows c all fs

-- the clock does not step back between the failures, from a time on
abbrev pub Ordered : ℕ → List FailureWindow → Type 0
Ordered t [] = Unit
Ordered t (f ∷ fs) = (t ≤ f.timestamp) × Ordered f.timestamp fs

filter-append :
    (p : FailureWindow → Bool) (xs ys : List FailureWindow)
    → filter p (xs ++ ys) ≡ filter p xs ++ filter p ys
filter-append p [] ys = refl
filter-append p (x ∷ xs) ys = ground (arith, filter-append p xs ys)

-- What has left an earlier window has left every later one.
filter-filter :
    (c : CircuitBreakerConfig) (t now : ℕ) (xs : List FailureWindow)
    → t ≤ now
    → filter (in_window c now) (filter (in_window c t) xs) ≡ filter (in_window c now) xs
filter-filter c t now [] h = refl
filter-filter c t now (x ∷ xs) h = ground (arith, filter-filter c t now xs h)

opened_stays :
    (fs : List FailureWindow) (b : ProviderCircuitBreaker)
    → b.state ≡ opened
    → (run_failures fs b).state ≡ opened
unfolding run_failures record_failure
opened_stays [] b s = s
opened_stays (f ∷ fs) b s = opened_stays fs (record_failure f.timestamp f.error b) (ground arith)

-- a failure of a closed circuit, which finds `recent` in its window
failure_opens :
    (c : CircuitBreakerConfig) (b : ProviderCircuitBreaker) (f : FailureWindow)
    (recent : List FailureWindow)
    → b.state ≡ closed
    → b.config ≡ c
    → filter (in_window c f.timestamp) (b.failures ++ f ∷ []) ≡ recent
    → let b' = record_failure f.timestamp f.error b in
      (leb c.failure_threshold (length recent) ≡ true) × (b'.state ≡ opened)
      ⊎ (leb c.failure_threshold (length recent) ≡ false)
        × (b'.state ≡ closed)
        × (b'.config ≡ c)
        × (b'.failures ≡ recent)
unfolding record_failure
failure_opens c b f recent s k e = ground arith

-- What the breaker keeps is what the whole history has in the window.
recent-eq :
    (c : CircuitBreakerConfig) (t now : ℕ) (kept seen : List FailureWindow) (f : FailureWindow)
    → t ≤ now
    → kept ≡ filter (in_window c t) seen
    → filter (in_window c now) (kept ++ f ∷ []) ≡ filter (in_window c now) (seen ++ f ∷ [])
recent-eq c t now kept seen f h e =
    rw (e, filter-append (in_window c now) (filter (in_window c t) seen) (f ∷ []))
      (rw (filter-filter c t now seen h) (sym (filter-append (in_window c now) seen (f ∷ []))))

overflow_after :
    (c : CircuitBreakerConfig) (seen fs : List FailureWindow) (b : ProviderCircuitBreaker) (t : ℕ)
    → b.state ≡ closed
    → b.config ≡ c
    → b.failures ≡ filter (in_window c t) seen
    → Ordered t fs
    → is_opened (run_failures fs b).state ≡ overflows c seen fs
unfolding run_failures overflows
overflow_after c seen [] b t s k e o = ground arith
overflow_after c seen (f ∷ fs) b t s k e o =
    let all = seen ++ f ∷ [] in
    let recent = filter (in_window c f.timestamp) all in
    let b' = record_failure f.timestamp f.error b in
    elim (failure_opens c b f recent s k (recent-eq c t f.timestamp b.failures seen f o.0 e)) [
      | inl (full, done) ↦ rw (full, opened_stays fs b' done)
      | inr (room, s', k', e') ↦ rw room (overflow_after c all fs b' f.timestamp s' k' e' o.1)
    ]

-- From a closed circuit with no failures on record, failures open the circuit exactly when at one of
-- them the threshold is reached by all failures so far that lie in the window that ends there, if the
-- clock does not step back between them. The failures that the code drops on the way make no
-- difference.
pub opens_exactly :
    (fs : List FailureWindow) (b : ProviderCircuitBreaker)
    → b.state ≡ closed
    → b.failures ≡ []
    → Ordered 0 fs
    → is_opened (run_failures fs b).state ≡ overflows b.config [] fs
opens_exactly fs b s e o = overflow_after b.config [] fs b 0 s refl e o
