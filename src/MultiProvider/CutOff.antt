-- ===== src/MultiProvider/CutOff.antt =====
-- A provider whose requests keep failing is cut off.
use infrgate.Prelude.{
  ℕ, suc, ◌+◌, ◌≤◌, ◌<◌, ◌≡◌, refl, sym, ap, ◌∙◌, Bool, true, false, some, List, [], ◌∷◌, ◌++◌,
  length, length-append, filter, All, leb, arith,
}
use infrgate.Prelude.Text.{Text}
use infrgate.Prelude.Eq.{List-eq}
use infrgate.Prelude.Dict.{lookup, insert, lookup-insert_self}
use infrgate.Prelude.Error.{Error, Result, throw}
use infrgate.CircuitBreaker.{
  CircuitBreakerConfig, ProviderCircuitBreaker, FailureWindow, closed, opened, in_window,
  record_failure, get_state, enter, leave, admitted, can_attempt_half_open, Rejection, reject,
}
use infrgate.Scorer
use infrgate.Scorer.{Arithmetic}
use infrgate.ControlPlane.{InfrGateControlPlane, get_circuit_breaker}
use infrgate.MultiProvider.{
  Surroundings, CallTimes, CallResult, turned_away, request_of, receive, put_breaker, leave_breaker,
  run_admitted, record_call, call_provider,
}
use infrgate.MultiProvider.Breakers.{AreQuietFor, receive-IsSameFor, open_is_skipped}

-- failures since a time, fewer than the threshold
record IsCharged (start k : ℕ) (b : ProviderCircuitBreaker) : Type 0 where
  state : b.state ≡ closed
  count : length b.failures ≡ k
  since : All (λ (f : FailureWindow). start ≤ f.timestamp) b.failures

filter-All :
    (p : FailureWindow → Bool) (q : FailureWindow → Type 0) (fs : List FailureWindow)
    → ((f : FailureWindow) → q f → p f ≡ true)
    → All q fs
    → filter p fs ≡ fs
filter-All p q [] h k = refl
filter-All p q (f ∷ fs) h k = rw (h f k.0) (ap (λ r. f ∷ r) (filter-All p q fs h k.1))

All-snoc :
    (q : FailureWindow → Type 0) (fs : List FailureWindow) (f : FailureWindow)
    → All q fs
    → q f
    → All q (fs ++ f ∷ [])
All-snoc q [] f h k = (k, tt)
All-snoc q (x ∷ fs) f h k = (h.0, All-snoc q fs f h.1 k)

module _ (start k now : ℕ) (message : Text) (b : ProviderCircuitBreaker) (c : IsCharged start k b)
    (low : start ≤ now) (high : now ≤ start + b.config.failure_window_ms) where
  abbrev charged : List FailureWindow
  charged = b.failures ++ (record { timestamp = now; error = message }) ∷ []

  charged_since : All (λ (f : FailureWindow). start ≤ f.timestamp) charged
  charged_since =
      All-snoc (λ f. start ≤ f.timestamp) b.failures (record { timestamp = now; error = message })
        c.since low

  kept : filter (in_window b.config now) charged ≡ charged
  kept =
      filter-All (in_window b.config now) (λ f. start ≤ f.timestamp) charged
        (λ f h. ground (arith, h, high)) charged_since

  size : length charged ≡ suc k
  size = omega (
    arith,
    length-append b.failures ((record { timestamp = now; error = message }) ∷ []),
    c.count,
  )

  stays_closed :
      suc k < b.config.failure_threshold
      → record_failure now message b ≡ record b { failures = charged }
  unfolding record_failure
  stays_closed room =
      let small : leb b.config.failure_threshold (length charged) ≡ false =
        ground (arith, size, room) in
      rw (c.state, record_failure) (rw (kept, small) refl)

  charge :
      suc k < b.config.failure_threshold
      → IsCharged start (suc k) (record_failure now message b)
        × ((record_failure now message b).config ≡ b.config)
  charge room =
      rw (stays_closed room) (record { state = c.state; count = size; since = charged_since }, refl)

  trip :
      suc k ≡ b.config.failure_threshold
      → ((record_failure now message b).state ≡ opened)
        × ((record_failure now message b).opened_at ≡ some now)
        × ((record_failure now message b).config ≡ b.config)
  unfolding record_failure
  trip full = ground (arith, c.state, kept, size)

enter_closed :
    (now : ℕ) (b : ProviderCircuitBreaker) → b.state ≡ closed → enter now b ≡ (admitted false, b)
unfolding enter get_state
enter_closed now b e = ground arith

module _ {n : Arithmetic} {A : Type 0} (elapsed : ℕ → ℕ → n.Carrier) (provider prompt : Text) where
  -- whatever the plane, the provider's response is an error
  pub record Fails (s : Surroundings n A) : Type 0 where
    pub fails :
        (q : InfrGateControlPlane n A)
        → let (fetched, q') = s.fetch (request_of provider prompt) q in
          (e : Error) × ((receive provider s.during_json fetched q').0 ≡ throw e)

  leave_failed :
      (s : Surroundings n A) (b : ProviderCircuitBreaker) (e : Error)
      (received : Result A × InfrGateControlPlane n A)
      → received.0 ≡ throw e
      → lookup provider received.1.circuit_breakers ≡ some b
      → lookup provider (leave_breaker provider b s.times.left false received).1.circuit_breakers
        ≡ some (record_failure s.times.left e.message b)
  unfolding leave_breaker leave
  leave_failed s b e (result, p) wrong there =
      rw (wrong, there)
        (lookup-insert_self provider (record_failure s.times.left e.message b) p.circuit_breakers)

  got_closed :
      (now : ℕ) (p : InfrGateControlPlane n A) (b : ProviderCircuitBreaker)
      → lookup provider p.circuit_breakers ≡ some b
      → b.state ≡ closed
      → (get_circuit_breaker now provider p).0 ≡ b
  unfolding get_circuit_breaker get_state
  got_closed now p b found e = rw (found, e, get_circuit_breaker) refl

  -- a call that is let in and fails, from the plane that it finds
  run_failed :
      (s : Surroundings n A) (b : ProviderCircuitBreaker) (p : InfrGateControlPlane n A)
      → Fails s
      → AreQuietFor provider s
      → (e : Error) × (lookup provider
            (run_admitted s provider prompt (admitted false, b) p).1.circuit_breakers
          ≡ some (record_failure s.times.left e.message b))
  unfolding run_admitted
  run_failed s b p fails quiet =
      let request = request_of provider prompt in
      let entered = put_breaker provider b p in
      let (fetched, arrived) = s.fetch request entered in
      let (e, wrong) = fails.fails entered in
      let there = lookup-insert_self provider b p.circuit_breakers in
      let kept = (quiet.fetch request entered).breaker in
      let read = (receive-IsSameFor provider provider s fetched arrived quiet).breaker in
      (
        e,
        leave_failed s b e (receive provider s.during_json fetched arrived) wrong
            (read ∙ kept ∙ there),
      )

  call_failed :
      (s : Surroundings n A) (b : ProviderCircuitBreaker) (p : InfrGateControlPlane n A)
      → lookup provider p.circuit_breakers ≡ some b
      → b.state ≡ closed
      → Fails s
      → AreQuietFor provider s
      → (message : Text) × (lookup provider
            (call_provider elapsed s provider prompt p).1.circuit_breakers
          ≡ some (record_failure s.times.left message b))
  unfolding call_provider record_call
  call_failed s b p found e fails quiet =
      let (breaker, p') = get_circuit_breaker s.times.got provider p in
      let same = got_closed s.times.got p b found e in
      let entry : enter s.times.entered breaker ≡ (admitted false, b) =
        ap (enter s.times.entered) same ∙ enter_closed s.times.entered b e in
      let (error, there) = run_failed s b p' fails quiet in
      (
        error.message,
        ap (λ x. lookup provider (run_admitted s provider prompt x p').1.circuit_breakers) entry
            ∙ there,
      )

  -- one call after the other
  abbrev pub call_all :
      List (Surroundings n A) → InfrGateControlPlane n A → InfrGateControlPlane n A
  call_all [] p = p
  call_all (s ∷ ss) p = call_all ss (call_provider elapsed s provider prompt p).1

  -- A call that fails within a stretch of time, while nobody else touches the provider.
  pub record FailsWithin (start end : ℕ) (s : Surroundings n A) : Type 0 where
    pub fails : Fails s
    pub quiet : AreQuietFor provider s
    pub from : start ≤ s.times.left
    pub to : s.times.left ≤ end

  record IsCutOff (start : ℕ) (c : CircuitBreakerConfig) (p : InfrGateControlPlane n A)
      : Type 0 where
    breaker : ProviderCircuitBreaker
    found : lookup provider p.circuit_breakers ≡ some breaker
    state : breaker.state ≡ opened
    since : ℕ
    opened_at : breaker.opened_at ≡ some since
    later : start ≤ since
    config : breaker.config ≡ c

  call_all-IsCutOff :
      (start k : ℕ) (c : CircuitBreakerConfig) (b : ProviderCircuitBreaker) (s : Surroundings n A)
      (ss : List (Surroundings n A)) (p : InfrGateControlPlane n A)
      → lookup provider p.circuit_breakers ≡ some b
      → b.config ≡ c
      → IsCharged start k b
      → k + length (s ∷ ss) ≡ c.failure_threshold
      → All (FailsWithin start (start + c.failure_window_ms)) (s ∷ ss)
      → IsCutOff start c (call_all (s ∷ ss) p)
  call_all-IsCutOff start k c b s [] p found e charged' full h =
      let (message, there) = call_failed s b p found charged'.state h.0.fails h.0.quiet in
      let high : s.times.left ≤ start + b.config.failure_window_ms = rw e h.0.to in
      let (state, since, config) =
        trip start k s.times.left message b charged' h.0.from high (rw e (omega arith)) in
      record {
        breaker = record_failure s.times.left message b;
        found = there;
        state = state;
        since = s.times.left;
        opened_at = since;
        later = h.0.from;
        config = config ∙ e;
      }
  call_all-IsCutOff start k c b s (s' ∷ ss) p found e charged' full h =
      let (message, there) = call_failed s b p found charged'.state h.0.fails h.0.quiet in
      let high : s.times.left ≤ start + b.config.failure_window_ms = rw e h.0.to in
      let (more, config) =
        charge start k s.times.left message b charged' h.0.from high (rw e (omega arith)) in
      call_all-IsCutOff start (suc k) c (record_failure s.times.left message b) s' ss
        (call_provider elapsed s provider prompt p).1 there (config ∙ e) more (omega arith) h.1

still_open :
    (now start since : ℕ) (b : ProviderCircuitBreaker)
    → b.opened_at ≡ some since
    → start ≤ since
    → now < start + b.config.recovery_timeout_ms
    → can_attempt_half_open now b ≡ false
unfolding can_attempt_half_open
still_open now start since b e h early = ground arith

-- A provider whose circuit is closed and has no failures on record is cut off by as many failing calls as
-- its threshold, one after the other within one failure window, that nobody else interferes with: until
-- its recovery timeout has passed since the window began, the next call is turned away by the circuit,
-- and what the network would answer then makes no difference to its result nor to the plane.
pub cut_off :
    {n : Arithmetic} {A : Type 0} (elapsed : ℕ → ℕ → n.Carrier) (provider prompt : Text) (start : ℕ)
    (b : ProviderCircuitBreaker) (s : Surroundings n A) (ss : List (Surroundings n A))
    (next next' : Surroundings n A) (p : InfrGateControlPlane n A)
    → lookup provider p.circuit_breakers ≡ some b
    → b.state ≡ closed
    → b.failures ≡ []
    → length (s ∷ ss) ≡ b.config.failure_threshold
    → All (FailsWithin elapsed provider prompt start (start + b.config.failure_window_ms)) (s ∷ ss)
    → next.times.got < start + b.config.recovery_timeout_ms
    → next.times.entered < start + b.config.recovery_timeout_ms
    → next'.times ≡ next.times
    → let failed = call_all elapsed provider prompt (s ∷ ss) p in
      ((r : Rejection) × ((call_provider elapsed next provider prompt failed).0 ≡ turned_away r))
      × (call_provider elapsed next' provider prompt failed
          ≡ call_provider elapsed next provider prompt failed)
cut_off {n} {A} elapsed provider prompt start b s ss next next' p found e none' full fails got
      entered same =
    let p' = call_all elapsed provider prompt (s ∷ ss) p in
    let none_yet : IsCharged start 0 b = record {
      state = e;
      count = rw none' refl;
      since = rw none' tt;
    } in
    let out =
      call_all-IsCutOff elapsed provider prompt start 0 b.config b s ss p found refl none_yet
        (omega arith) fails in
    let blocked = λ (now : ℕ) (early : now < start + b.config.recovery_timeout_ms).
      still_open now start out.since out.breaker out.opened_at out.later (rw out.config early) in
    let skip =
      open_is_skipped elapsed next provider prompt p' out.breaker out.found out.state
        (blocked next.times.got got) (blocked next.times.entered entered) in
    let skip' =
      open_is_skipped elapsed next' provider prompt p' out.breaker out.found out.state
        (rw same (blocked next.times.got got)) (rw same (blocked next.times.entered entered)) in
    let after : CallTimes → CallResult A × InfrGateControlPlane n A = λ t. (
      turned_away (reject out.breaker),
      record p' {
        circuit_breakers =
            insert provider out.breaker (insert provider out.breaker p'.circuit_breakers);
        scorer =
            Scorer.record_signal n (Scorer.update_availability n p'.scorer provider opened) provider
              (elapsed t.begun t.ended) true;
      },
    ) in
    ((reject out.breaker, ap (λ x. x.0) skip), skip' ∙ ap after same ∙ sym skip)
