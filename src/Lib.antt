-- ===== src/Lib.antt =====
-- InfrGate: its control-plane SDK (packages/sdk/src), and what of the website (Frontend) keeps state.
--
-- The SDK's parts, one module each:
-- - RateLimiter: packages/sdk/src/rate-limiter.ts, `TokenBucketRateLimiter`.
-- - CircuitBreaker: packages/sdk/src/circuit-breaker.ts, `ProviderCircuitBreaker`.
-- - Scorer: the same file, `AdapterScorer`.
-- - Canonicalize: packages/sdk/src/utils/canonicalize.ts, `canonicalize`.
-- - Fingerprint: packages/sdk/src/utils/crypto.ts, and `fingerprint` of packages/sdk/src/idempotency.ts.
-- - Idempotency: packages/sdk/src/idempotency.ts, the replay cache of `IdempotencyGuard`.
-- - Trace: packages/sdk/src/trace.ts, `ExecutionTraceBuilder`.
-- - ControlPlane: packages/sdk/src/client.ts, `InfrGateControlPlane`, which holds one limiter, one guard,
--   one scorer and a breaker for each provider. `execute` fingerprints the payload, looks it up in the
--   guard, asks the limiter, calls the handler, stores its result, and traces each of these steps.
-- - ChatClient: packages/sdk/src/client.ts, `InfrGateClient`, whose requests are handlers of `execute`.
-- - MultiProvider: packages/sdk/examples/multi-provider-routing.ts, the program that falls back from one
--   provider to the next, over the control plane's breakers and scorer.
--
-- The website's parts, which neither call each other nor the SDK:
-- - Toasts: Frontend/hooks/use-toast.ts, the store of toasts with its reducer, timers and listeners.
-- - SplitFlap: Frontend/components/split-flap-text.tsx, with the sound in SplitFlap/Audio.
-- - ScrambleText: Frontend/components/scramble-text.tsx.
-- - DrawText: Frontend/components/draw-text.tsx.
-- - AnimatedNoise: Frontend/components/animated-noise.tsx, the frames and the bytes that are drawn.
-- - Page: Frontend/components/side-nav.tsx, smooth-scroll.tsx and work-section.tsx, and
--   Frontend/hooks/use-mobile.ts, one module each.
--
-- Prelude holds what they share: tests, lists, `Map` as an association list in insertion order, strings
-- as UTF-16 code units, the decimal text of a number, sorting, integers, and the errors that are thrown.
--
-- How the code reads as definitions. A class, or a module with variables, is a record, and its fields
-- keep their names. A method is a function that takes the record and what the method reads from outside,
-- and returns its result and the new record. A thrown error is a value. An asynchronous method is cut at
-- its awaits: what other calls do to the object meanwhile is a function that is a parameter (`Waits`),
-- so that a theorem holds for each interleaving. Callbacks of timers, of animation frames and of the mouse are
-- events, and a run is a list of events.
--
-- Numbers. Times are whole milliseconds, and each reading of a clock is an argument. The limiter
-- counts thousandths of a token, exactly, for whole capacities and refill rates; the program's binary
-- fractions are the same numbers where the clock is read at whole eighths of a second and the sizes
-- are bounded, as `IsExact` of RateLimiter/Account says, which the theorems on levels and on waiting
-- times assume. The scorer's binary fractions are a type that is a parameter, with the laws that they
-- obey after rounding. A draw of `Math.random()` is a whole number below 2 ^ 53, in units of 2 ^ -53.
-- Of the code, the decimal text of a number runs on fuel, the number's successor, which is more than
-- it has digits, and the loop of AnimatedNoise on the length of its array; all else is structural
-- recursion. The readers of Canonicalize and Fingerprint, by which texts are told apart and which are
-- no part of the program, run on the length of what they read.
--
-- Parameters stand for what the program calls: the platform's digest, of which the size of the result is
-- used; `fetch` and the reading of a response's body; what gsap makes of delayed calls on `revert()`, and
-- its ticker; the canvas's `createImageData`; and the random parts of ids.
--
-- Not modelled: the re-exports, the build and the tests of the SDK; the pages, the styles and the markup
-- of the website, and its sections and texts that gsap alone animates; Frontend/components/ui, which
-- holds copies of a library of components; the service, the SDK and the migrations in Python.
pub mod Prelude
pub mod RateLimiter
pub mod ControlPlane
pub mod Scorer
pub mod AnimatedNoise
pub mod ChatClient
pub mod MultiProvider
pub mod Fingerprint
pub mod Canonicalize
pub mod Trace
pub mod Idempotency
pub mod CircuitBreaker
pub mod Toasts
pub mod SplitFlap
pub mod ScrambleText
pub mod DrawText
pub mod Page
