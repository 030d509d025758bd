-- ===== src/ControlPlane/Tests.antt =====
-- One request through the control plane, and the theorems on `execute` there.
use infrgate.Prelude.{ℕ, arith, ◌≡◌, refl, true, none, some, [], ◌∷◌}
use infrgate.Prelude.Text.{Text, codes}
use infrgate.Prelude.Int.{◌+ℤ◌, ◌-ℤ◌, ◌*ℤ◌, min_ℤ}
use infrgate.Prelude.Dict.{lookup, insert}
use mathlib.Core.List.{Perm}
use infrgate.Prelude.Eq.{List-eq}
use infrgate.Prelude.Sort
use infrgate.Prelude.Sort.{IsSorted}
use infrgate.Canonicalize.Tests.{a, b}
use infrgate.Scorer.{get_health, availability_of}
use infrgate.ControlPlane.Routing.{not_worse, rank_providers_lem}
use infrgate.Prelude.Error.{Error, Result, ok, throw}
use infrgate.Fingerprint.{fingerprint, get_subtle_crypto, buffer_to_hex}
use infrgate.Fingerprint.Tests.{platform, payload}
use infrgate.Idempotency
use infrgate.Idempotency.Replay.{view}
use infrgate.RateLimiter
use infrgate.Scorer
use infrgate.Scorer.Tests.{thousandths, thousandths-IsArithmetic}
use infrgate.Trace
use infrgate.Trace.{Reading, idempotency, rate_limit, execution, finalize, passed}
use infrgate.ControlPlane.{
  CallTrace, ControlPlaneConfig, InfrGateControlPlane, Times, Waits, new, execute, rank_providers,
}
use infrgate.ControlPlane.Pipeline.{steps_of, execute_stored, limited, stored}
use infrgate.ControlPlane.Repeat.{execute_again, execute_overlap}

abbrev at : ℕ → Reading
at ms = record { date = ms; performance = ms }

abbrev pub times : ℕ → Times
times ms = record {
  begun = at ms;
  looked = at ms;
  checked = at ms;
  passed = at ms;
  executed = at ms;
  stored = at ms;
}

abbrev tenant : Text
tenant = codes "acme"

-- what the stand-in for the digest makes of every payload
abbrev pub key : Text
key = codes "0707070707070707070707070707070707070707070707070707070707070707"

key_run : fingerprint platform payload ≡ ok key
unfolding fingerprint get_subtle_crypto buffer_to_hex
key_run = refl

-- Nobody else calls, and the handler comes to the outcome given.
abbrev alone : Result ℕ → Waits thousandths ℕ
alone outcome = record {
  during_hash = λ p. p;
  during_get = λ p. p;
  during_check = λ p. p;
  handler = λ p. (outcome, p);
  during_set = λ p. p;
}

abbrev pub options : ℕ → ControlPlaneConfig
options capacity = record {
  ttl_seconds = some 60;
  rate_limit = some (record { capacity = capacity; refill_rate = 1; key_prefix = none });
  circuit_breaker = record {
    failure_threshold = none;
    failure_window_ms = none;
    recovery_timeout_ms = none;
    success_threshold = none;
    half_open_max_requests = none;
  };
}

abbrev plane : InfrGateControlPlane thousandths ℕ
plane = new thousandths (options 2)

abbrev empty : InfrGateControlPlane thousandths ℕ
empty = new thousandths (options 0)

abbrev pub refusal : Error
refusal = record { name = codes "Error"; message = codes "refused" }

-- the plane with a response in its cache
abbrev warm : InfrGateControlPlane thousandths ℕ
warm = record plane { idempotency = Idempotency.set plane.idempotency key 7 200 1000 1000 }

execute_stored_example :
    (trace : CallTrace) × (execute
        (alone (ok 8))
        (times 2000)
        platform
        (codes "id")
        tenant
        payload
        plane
      ≡ (
        ok (8, trace),
        stored
            (alone (ok 8))
            (times 2000)
            platform
            (codes "id")
            tenant
            key
            payload
            plane
            8
            (limited (alone (ok 8)) (times 2000) platform (codes "id") tenant key payload plane),
      ))
    × (steps_of trace
        ≡ (idempotency, passed)
          ∷ (rate_limit, passed)
          ∷ (execution, passed)
          ∷ (finalize, passed)
          ∷ [])
unfolding new Idempotency.new view lookup RateLimiter.check min_ℤ ◌+ℤ◌ RateLimiter.new ◌*ℤ◌
execute_stored_example =
    execute_stored (alone (ok 8)) (times 2000) platform (codes "id") tenant key payload plane 8
      key_run refl refl refl

execute_again_example :
    let first = execute (alone (ok 8)) (times 2000) platform (codes "id") tenant payload plane in
    let second =
      execute (alone (throw refusal)) (times 61999) platform (codes "id2") tenant payload first.1 in
    (trace : CallTrace) × (trace' : CallTrace) × (first.0 ≡ ok (8, trace))
    × (second.0 ≡ ok (8, trace'))
    × (steps_of trace' ≡ (idempotency, passed) ∷ [])
unfolding new Idempotency.new Idempotency.get view lookup RateLimiter.check min_ℤ ◌+ℤ◌
    RateLimiter.new ◌*ℤ◌
execute_again_example =
    execute_again (alone (ok 8)) (alone (throw refusal)) (times 2000) (times 61999) platform
      (codes "id") (codes "id2") tenant tenant key payload plane 8 key_run refl refl refl refl
      (omega arith)

-- the second call arrives while the first one's handler runs
execute_overlap_example :
    (trace : CallTrace) × ((execute
        (alone (ok 9))
        (times 2001)
        platform
        (codes "id2")
        tenant
        payload
        (limited (alone (ok 8)) (times 2000) platform (codes "id") tenant key payload plane)).0
      ≡ ok (9, trace))
unfolding new Idempotency.new Idempotency.get view lookup RateLimiter.check min_ℤ ◌+ℤ◌
    RateLimiter.new ◌*ℤ◌ insert ◌-ℤ◌
execute_overlap_example =
    execute_overlap (alone (ok 8)) (alone (ok 9)) (times 2000) (times 2001) platform (codes "id")
      (codes "id2") tenant tenant key payload plane 9 key_run refl refl refl refl

abbrev slow : InfrGateControlPlane thousandths ℕ
slow = record plane { scorer = Scorer.record_signal thousandths plane.scorer a 9000000 true }

rank_providers_lem_example :
    Perm (rank_providers slow (a ∷ b ∷ [])) (a ∷ b ∷ [])
    × IsSorted
        (not_worse thousandths thousandths-IsArithmetic slow)
        (rank_providers slow (a ∷ b ∷ []))
rank_providers_lem_example =
    rank_providers_lem thousandths thousandths-IsArithmetic slow (a ∷ b ∷ [])

rank_run : rank_providers slow (a ∷ b ∷ []) ≡ b ∷ a ∷ []
unfolding rank_providers Sort.sort Scorer.calculate_score lookup Scorer.record_signal insert new
    Scorer.new
rank_run = refl
