-- ===== src/CircuitBreaker/Tests.antt =====
-- Runs of a breaker, and its theorems at concrete inputs.
use Prim.Native.Nat.{min}
use infrgate.Prelude.{suc, ◌+◌, ◌≡◌, refl, true, false, none, some, List, [], ◌∷◌, arith}
use infrgate.Prelude.Int.{pos, ◌+ℤ◌}
use infrgate.Prelude.Text.{Text, codes}
use infrgate.CircuitBreaker.{
  opened, half_open, is_opened, FailureWindow, ProviderCircuitBreaker, PartialConfig, new, enter,
  rejected, record_failure, circuit_open_error, resolved, failed,
}
use infrgate.CircuitBreaker.Lifecycle.{Op, read_state, start, finish, fail, step, run}
use infrgate.CircuitBreaker.Machine.{happening, edge, step-edge}
use infrgate.CircuitBreaker.Recovery.{fails_fast}
use infrgate.CircuitBreaker.Window.{run_failures, overflows, opens_exactly}
use infrgate.CircuitBreaker.Probes.{admits, stale_probe_overruns}

abbrev openai : Text
openai = codes "openai"

abbrev timeout : Text
timeout = codes "timeout"

abbrev options : PartialConfig
options = record {
  failure_threshold = some 2;
  failure_window_ms = none;
  recovery_timeout_ms = some 1000;
  success_threshold = none;
  half_open_max_requests = none;
}

abbrev failing : List Op
failing = start 100 ∷ finish 150 false (failed timeout) ∷ fail 200 timeout ∷ []

abbrev broken : ProviderCircuitBreaker
broken = run failing (new openai options)

abbrev probing : ProviderCircuitBreaker
probing = run (start 1500 ∷ []) broken

broken_state : (broken.state ≡ opened) × (broken.opened_at ≡ some 200)
unfolding run step new
broken_state = (refl, refl)

probing_state : (probing.state ≡ half_open) × (probing.half_open_count ≡ pos 1)
unfolding run step new ◌+ℤ◌
probing_state = (refl, refl)

step-edge_example :
    (step (fail 300 timeout) probing).state
    ≡ edge (happening (fail 300 timeout)) probing.state probing
step-edge_example = step-edge (fail 300 timeout) probing

fails_fast_example :
    ((run (start 300 ∷ []) broken).state ≡ opened)
    × ((enter 400 (run (start 300 ∷ []) broken)).0
        ≡ rejected
            (circuit_open_error broken.provider_name (200 + broken.config.recovery_timeout_ms)))
unfolding run step new
fails_fast_example =
    fails_fast (start 300 ∷ []) broken 200 400 refl refl (omega arith) (omega arith)

abbrev two_failures : List FailureWindow
two_failures =
    (record { timestamp = 100; error = timeout })
    ∷ (record { timestamp = 60200; error = timeout })
    ∷ (record { timestamp = 60300; error = timeout })
    ∷ []

opens_exactly_example :
    is_opened (run_failures two_failures (new openai options)).state
    ≡ overflows (new openai options).config [] two_failures
unfolding new
opens_exactly_example = opens_exactly two_failures (new openai options) refl refl (omega arith)

opens_run : is_opened (run_failures two_failures (new openai options)).state ≡ true
unfolding run_failures record_failure new
opens_run = refl

abbrev overrun : List Op
overrun = fail 1600 timeout ∷ read_state 2700 ∷ finish 2800 true (resolved tt) ∷ []

stale_probe_overruns_example :
    admits (1 ∷ 2 ∷ 3 ∷ 4 ∷ []) (run overrun probing)
    ≡ min 4 (suc probing.config.half_open_max_requests)
unfolding run step new
stale_probe_overruns_example =
    stale_probe_overruns (1 ∷ 2 ∷ 3 ∷ 4 ∷ []) probing 1600 2700 2800 timeout refl (omega arith)
      (omega arith) (omega arith)
