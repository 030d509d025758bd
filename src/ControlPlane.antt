-- ===== src/ControlPlane.antt =====
-- packages/sdk/src/client.ts, `InfrGateControlPlane`. `execute` runs in segments between its awaits:
-- each segment has one reading of the clocks, and at each await other calls may change the plane, by a
-- function that is a parameter. The handler is one more such wait, with an outcome. The type of results
-- is a parameter, and so is the arithmetic of the scorer.
pub mod Routing
pub mod Pipeline
pub mod Repeat
pub mod Failure
pub mod Tests
use infrgate.Prelude.{
  ℕ, ◌+◌, Bool, true, false, Option, none, some, List, [], ◌∷◌, ◌++◌, map, if◌then◌else◌,
}
use infrgate.Prelude.Text.{Text, codes}
use infrgate.Prelude.Eq.{List-eq}
use infrgate.Prelude.Dict.{Dict, lookup, insert}
use infrgate.Prelude.Error.{Error, Result, ok, throw, ◌>>=◌}
use infrgate.Prelude.Sort
use infrgate.Prelude.Decimal.{decimal}
use infrgate.Canonicalize.{Fields}
use infrgate.Fingerprint.{Platform, fingerprint}
use infrgate.Idempotency
use infrgate.Idempotency.{CachedResponse, IdempotencyGuard}
use infrgate.RateLimiter
use infrgate.RateLimiter.{
  TokenBucketRateLimiter, RateLimitOptions, RateLimitResult, Seconds, finite, infinite,
}
use infrgate.CircuitBreaker
use infrgate.CircuitBreaker.{ProviderCircuitBreaker, PartialConfig}
use infrgate.Scorer
use infrgate.Scorer.{Arithmetic, AdapterScorer, Weights}
use infrgate.Trace
use infrgate.Trace.{
  ExecutionTraceBuilder, Reading, idempotency, rate_limit, execution, finalize, start, end,
}

-- `tracing` is stored and never read.
pub record ControlPlaneConfig : Type 0 where
  pub ttl_seconds : Option ℕ
  pub rate_limit : Option RateLimitOptions
  pub circuit_breaker : PartialConfig

-- the values of the metadata that `execute` attaches
pub data MetaValue : Type 0 where
  flag : Bool → MetaValue
  text : Text → MetaValue
  count : ℕ → MetaValue
  seconds : Option Seconds → MetaValue

abbrev pub CallTrace : Type 0
CallTrace = ExecutionTraceBuilder MetaValue

pub record InfrGateControlPlane (n : Arithmetic) (A : Type 0) : Type 0 where
  pub idempotency : IdempotencyGuard A
  pub rate_limit : TokenBucketRateLimiter
  pub scorer : AdapterScorer n.Carrier
  pub circuit_breaker : PartialConfig
  pub circuit_breakers : Dict Text ProviderCircuitBreaker

abbrev limit_or_default : Option RateLimitOptions → RateLimitOptions
limit_or_default none = record { capacity = 100; refill_rate = 10; key_prefix = none }
limit_or_default (some o) = o

-- the constructor
unfoldable pub new : (n : Arithmetic) {A : Type 0} → ControlPlaneConfig → InfrGateControlPlane n A
new n c = record {
  idempotency = Idempotency.new c.ttl_seconds;
  rate_limit = RateLimiter.new (limit_or_default c.rate_limit);
  scorer = Scorer.new n none;
  circuit_breaker = c.circuit_breaker;
  circuit_breakers = [];
}

abbrev breaker_or_new :
    Option ProviderCircuitBreaker → Text → PartialConfig → ProviderCircuitBreaker
breaker_or_new none name c = CircuitBreaker.new name c
breaker_or_new (some b) name c = b

abbrev default_weights : {C : Type 0} → Weights C
default_weights = record { availability = none; error_rate = none; latency = none }

abbrev seconds_text : Option Seconds → Text
seconds_text none = codes "undefined"
seconds_text (some (finite s)) = decimal s
seconds_text (some infinite) = codes "Infinity"

-- `Rate limit exceeded. Retry after ${retryAfter}s`
unfoldable pub rate_limit_error : Option Seconds → Error
rate_limit_error retry = record {
  name = codes "RateLimitError";
  message = codes "Rate limit exceeded. Retry after " ++ (seconds_text retry ++ codes "s");
}

-- `(a, b) => b.score - a.score` is not above 0: a may stand before b
abbrev pub may_precede : (n : Arithmetic) → Text × n.Carrier → Text × n.Carrier → Bool
may_precede n a b = n.leb (n.sub b.1 a.1) n.nought

-- what a call of `execute` comes to
abbrev pub Answer : Type 0 → Type 0
Answer A = Result (A × CallTrace)

module _ {n : Arithmetic} {A : Type 0} where
  -- The breaker is an object of the map: `getState` changes it there.
  unfoldable pub get_circuit_breaker :
      ℕ → Text → InfrGateControlPlane n A → ProviderCircuitBreaker × InfrGateControlPlane n A
  get_circuit_breaker now name p =
      let breaker =
        CircuitBreaker.get_state now
          (breaker_or_new (lookup name p.circuit_breakers) name p.circuit_breaker) in
      (
        breaker,
        record p {
          circuit_breakers = insert name breaker p.circuit_breakers;
          scorer = Scorer.update_availability n p.scorer name breaker.state;
        },
      )

  -- a provider with its score
  abbrev pub scored : InfrGateControlPlane n A → Text → Text × n.Carrier
  scored p provider = (provider, Scorer.calculate_score n p.scorer provider default_weights)

  unfoldable pub rank_providers : InfrGateControlPlane n A → List Text → List Text
  rank_providers p providers = map (λ s. s.0) (Sort.sort (may_precede n) (map (scored p) providers))

-- a miss: from the end of the first step to the start of the second
unfoldable pub miss : Text → Reading → CallTrace → Result CallTrace
miss key now trace = do
  ended ←
      end idempotency (some ((codes "cacheHit", flag false) ∷ (codes "key", text key) ∷ [])) now
        trace
  ok (start rate_limit none now ended)

-- a request that the limit allows: from the end of the second step to the start of the third
unfoldable pub pass : RateLimitResult → Reading → CallTrace → Result CallTrace
pass r now trace = do
  ended ←
      end rate_limit
        (some ((codes "allowed", flag true) ∷ (codes "remaining", count r.remaining) ∷ [])) now
        trace
  ok (start execution none now ended)

-- the handler's result: from the end of the third step to the start of the last
unfoldable pub executed : Reading → CallTrace → Result CallTrace
executed now trace = do ended ← end execution none now trace; ok (start finalize none now ended)

-- The segments of `execute`.
module _ {A : Type 0} where
  -- `trace.end(IDEMPOTENCY, …)` and the return of a cached body
  unfoldable pub replay : Text → CachedResponse A → Reading → CallTrace → Answer A
  replay key cached now trace = do
    ended ←
        end idempotency (some ((codes "cacheHit", flag true) ∷ (codes "key", text key) ∷ [])) now
          trace
    ok (cached.body, ended)

  unfoldable pub finished : A → Reading → CallTrace → Answer A
  finished result now trace = do
    ended ← end finalize (some ((codes "cached", flag true) ∷ [])) now trace
    ok (result, ended)

-- The readings of the clocks, one for each segment.
pub record Times : Type 0 where
  pub begun : Reading
  pub looked : Reading
  pub checked : Reading
  pub passed : Reading
  pub executed : Reading
  pub stored : Reading

-- What other calls make of the plane at each await, and what the handler comes to.
pub record Waits (n : Arithmetic) (A : Type 0) : Type 0 where
  pub during_hash : InfrGateControlPlane n A → InfrGateControlPlane n A
  pub during_get : InfrGateControlPlane n A → InfrGateControlPlane n A
  pub during_check : InfrGateControlPlane n A → InfrGateControlPlane n A
  pub handler : InfrGateControlPlane n A → Result A × InfrGateControlPlane n A
  pub during_set : InfrGateControlPlane n A → InfrGateControlPlane n A

module _ {n : Arithmetic} {A : Type 0} (w : Waits n A) (t : Times) where
  -- step 4: the response is cached
  unfoldable pub store_response :
      Text → A → CallTrace → InfrGateControlPlane n A → Answer A × InfrGateControlPlane n A
  unfolding executed finished
  store_response key result trace p = elim (executed t.executed trace) [
    | throw e ↦ (throw e, p)
    | ok trace' ↦ (
      finished result t.stored trace',
      w.during_set (record p {
        idempotency = Idempotency.set p.idempotency key result 200 t.executed.date t.executed.date;
      }),
    )
  ]

  -- step 3: the handler; its error is thrown on
  unfoldable pub run_handler :
      Text
      → RateLimitResult
      → CallTrace
      → InfrGateControlPlane n A
      → Answer A × InfrGateControlPlane n A
  unfolding pass store_response
  run_handler key r trace p = elim (pass r t.passed trace) [
    | throw e ↦ (throw e, p)
    | ok trace' ↦
        let (outcome, p') = w.handler p in
        elim outcome [ throw e ↦ (throw e, p') | ok result ↦ store_response key result trace' p' ]
  ]

  -- step 2: the rate limit. Where it throws, the trace, with the error, is lost with the call.
  unfoldable pub limit :
      Text → Text → CallTrace → InfrGateControlPlane n A → Answer A × InfrGateControlPlane n A
  unfolding run_handler
  limit tenant key trace p =
      let (r, limiter) = RateLimiter.check p.rate_limit tenant 1 t.checked.date in
      let p' = w.during_check (record p { rate_limit = limiter }) in
      if r.allowed then run_handler key r trace p' else (throw (rate_limit_error r.retry_after), p')

  -- step 1, once the key is there: the replay cache
  unfoldable pub look :
      Text → Text → CallTrace → InfrGateControlPlane n A → Answer A × InfrGateControlPlane n A
  unfolding replay miss limit
  look tenant key trace p =
      let (cached, guard) = Idempotency.get p.idempotency key t.looked.date in
      let p' = w.during_get (record p { idempotency = guard }) in
      elim cached [
        | some response ↦ (replay key response t.checked trace, p')
        | none ↦ elim (miss key t.checked trace) [
          | throw e ↦ (throw e, p')
          | ok trace' ↦ limit tenant key trace' p'
        ]
      ]

  unfoldable pub execute :
      Platform
      → Text
      → Text
      → Fields
      → InfrGateControlPlane n A
      → Answer A × InfrGateControlPlane n A
  unfolding look
  execute platform id tenant payload p =
      let trace = start idempotency none t.begun (Trace.new id) in
      elim (fingerprint platform payload) [
        | throw e ↦ (throw e, w.during_hash p)
        | ok key ↦ look tenant key trace (w.during_hash p)
      ]
