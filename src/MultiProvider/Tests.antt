-- ===== src/MultiProvider/Tests.antt =====
-- Completions where some providers fail, and the theorems on single calls there.
use infrgate.Prelude.{
  ℕ, ◌*◌, ◌-◌, ◌≡◌, ◌≢◌, ◌≤◌, arith, refl, sym, ◌∙◌, false, true, Option, none, some, List, ◌⊎◌, [],
  ◌∷◌, nat_eq, if◌then◌else◌,
}
use mathlib.Core.Bool.{false≢true}
use infrgate.Prelude.Text.{Text, codes}
use infrgate.Prelude.Eq.{list_eq, list_eq_iff, List-eq}
use infrgate.Prelude.Dict.{lookup, insert}
use infrgate.Prelude.Error.{ok, throw}
use infrgate.Prelude.Sort
use infrgate.Prelude.Int.{◌*ℤ◌}
use infrgate.CircuitBreaker
use infrgate.CircuitBreaker.{opened, ProviderCircuitBreaker, Rejection, reject}
use infrgate.Idempotency
use infrgate.RateLimiter
use infrgate.Scorer
use infrgate.Scorer.Tests.{thousandths, thousandths-IsArithmetic}
use infrgate.ControlPlane
use infrgate.ControlPlane.{InfrGateControlPlane, get_circuit_breaker, rank_providers}
use infrgate.MultiProvider.{
  config, providers, all_providers_unavailable, CallTimes, Surroundings, turned_away, status_error,
  receive, call_provider, fall_back, try_provider, generate_completion,
}
use infrgate.MultiProvider.Completion.{AllDecline, Completes, generate_completion_lem}
use mathlib.Core.List.{Perm}
use infrgate.Prelude.Sort.{IsSorted}
use infrgate.ControlPlane.Routing.{not_worse}
use infrgate.MultiProvider.CutOff.{FailsWithin, call_all, cut_off}
use infrgate.MultiProvider.Breakers.{IsSameFor, call_provider-IsSameFor, open_is_skipped}

abbrev plane : InfrGateControlPlane thousandths Text
plane = ControlPlane.new thousandths config

abbrev times : ℕ → CallTimes
times t = record { begun = t; got = t; entered = t; left = t; ended = t }

-- The provider answers with the status, and nobody else calls.
abbrev answering : ℕ → Text → Surroundings thousandths Text
answering status content = record {
  times = times 1000;
  fetch = λ request p. (
    ok (record { is_ok = nat_eq status 200; status = status; status_text = []; json = ok content }),
    p,
  );
  during_json = λ p. p;
}

-- An empty body has no content.
abbrev content_of : Text → Option Text
content_of [] = none
content_of (c ∷ s) = some (c ∷ s)

-- openai is down, groq gives a body without content, and all others say hello.
abbrev world : Text → Surroundings thousandths Text
world provider =
    if list_eq provider (codes "openai")
    then answering 500 []
    else if list_eq provider (codes "groq")
    then answering 200 []
    else answering 200 (codes "hello")

abbrev elapsed : ℕ → ℕ → ℕ
elapsed t u = (u - t) * 1000

third_run : (generate_completion elapsed content_of (codes "hi") world plane).0 ≡ ok (codes "hello")
unfolding generate_completion ControlPlane.new Scorer.new CircuitBreaker.new Idempotency.new
    RateLimiter.new ◌*ℤ◌ rank_providers Sort.sort lookup insert Scorer.calculate_score try_provider
    fall_back call_provider
third_run = refl

nobody_run :
    (generate_completion elapsed content_of (codes "hi") (λ provider. answering 503 []) plane).0
    ≡ throw all_providers_unavailable
unfolding generate_completion ControlPlane.new Scorer.new CircuitBreaker.new Idempotency.new
    RateLimiter.new ◌*ℤ◌ rank_providers Sort.sort lookup insert Scorer.calculate_score try_provider
    fall_back call_provider
nobody_run = refl

generate_completion_lem_example :
    let ended = generate_completion elapsed content_of (codes "hi") world plane in
    (names : List Text) × Perm names providers
    × IsSorted (not_worse thousandths thousandths-IsArithmetic plane) names
    × (((a : Text) × Completes elapsed content_of (codes "hi") world names plane a ended.1
          × (ended.0 ≡ ok a))
        ⊎ (AllDecline elapsed content_of (codes "hi") world names plane ended.1
            × (ended.0 ≡ throw all_providers_unavailable)))
generate_completion_lem_example =
    generate_completion_lem thousandths-IsArithmetic elapsed content_of (codes "hi") world plane

differ : (j k : Text) → list_eq j k ≡ false → j ≢ k
differ j k h e = false≢true (sym h ∙ (list_eq_iff j k).1 e)

call_provider-IsSameFor_example :
    IsSameFor
      (codes "groq")
      plane
      (call_provider elapsed (answering 500 []) (codes "openai") (codes "hi") plane).1
call_provider-IsSameFor_example =
    call_provider-IsSameFor elapsed (answering 500 []) (codes "openai") (codes "groq") (codes "hi")
      plane (differ (codes "openai") (codes "groq") refl)
      (record {
        fetch = λ request p. record { breaker = refl; health = refl };
        during_json = λ p. record { breaker = refl; health = refl };
      })

-- the circuit of openai has opened a moment ago
abbrev broken_breaker : ProviderCircuitBreaker
broken_breaker = record (CircuitBreaker.new (codes "openai") config.circuit_breaker) {
  state = opened;
  opened_at = some 900;
}

abbrev broken_plane : InfrGateControlPlane thousandths Text
broken_plane = record plane { circuit_breakers = (codes "openai", broken_breaker) ∷ [] }

open_circuit_run :
    call_provider elapsed (answering 200 (codes "hello")) (codes "openai") (codes "hi") broken_plane
    ≡ (
      turned_away (reject broken_breaker),
      record broken_plane {
        circuit_breakers =
            insert
              (codes "openai")
              broken_breaker
              (insert (codes "openai") broken_breaker broken_plane.circuit_breakers);
        scorer =
            Scorer.record_signal thousandths
              (Scorer.update_availability thousandths broken_plane.scorer (codes "openai") opened)
              (codes "openai")
              0
              true;
      },
    )
unfolding CircuitBreaker.new lookup CircuitBreaker.can_attempt_half_open
open_circuit_run =
    open_is_skipped elapsed (answering 200 (codes "hello")) (codes "openai") (codes "hi")
      broken_plane broken_breaker refl refl refl refl

abbrev closed_breaker : ProviderCircuitBreaker
closed_breaker = CircuitBreaker.new (codes "openai") config.circuit_breaker

abbrev closed_plane : InfrGateControlPlane thousandths Text
closed_plane = record plane { circuit_breakers = (codes "openai", closed_breaker) ∷ [] }

abbrev at_time : ℕ → Surroundings thousandths Text → Surroundings thousandths Text
at_time t s = record s { times = times t }

down :
    (t : ℕ)
    → 1000 ≤ t
    → t ≤ 61000
    → FailsWithin elapsed (codes "openai") (codes "hi") 1000 61000 (at_time t (answering 500 []))
down t low high = record {
  fails = record { fails = λ q. (status_error (codes "openai") 500, unfold receive in refl) };
  quiet = record {
    fetch = λ request p. record { breaker = refl; health = refl };
    during_json = λ p. record { breaker = refl; health = refl };
  };
  from = low;
  to = high;
}

cut_off_example :
    let failed =
      call_all elapsed
        (codes "openai")
        (codes "hi")
        (at_time 1000 (answering 500 [])
          ∷ at_time 2000 (answering 500 [])
          ∷ at_time 3000 (answering 500 [])
          ∷ at_time 4000 (answering 500 [])
          ∷ at_time 5000 (answering 500 [])
          ∷ [])
        closed_plane in
    ((r : Rejection) × ((call_provider elapsed
          (at_time 30000 (answering 200 (codes "hello")))
          (codes "openai")
          (codes "hi")
          failed).0
        ≡ turned_away r))
    × (call_provider elapsed (at_time 30000 (answering 500 [])) (codes "openai") (codes "hi") failed
        ≡ call_provider elapsed
            (at_time 30000 (answering 200 (codes "hello")))
            (codes "openai")
            (codes "hi")
            failed)
unfolding CircuitBreaker.new lookup
cut_off_example =
    cut_off elapsed (codes "openai") (codes "hi") 1000 closed_breaker
      (at_time 1000 (answering 500 []))
      (at_time 2000 (answering 500 [])
        ∷ at_time 3000 (answering 500 [])
        ∷ at_time 4000 (answering 500 [])
        ∷ at_time 5000 (answering 500 [])
        ∷ [])
      (at_time 30000 (answering 200 (codes "hello"))) (at_time 30000 (answering 500 []))
      closed_plane refl refl refl refl
      (
        down 1000 (omega arith) (omega arith),
        (
          down 2000 (omega arith) (omega arith),
          (
            down 3000 (omega arith) (omega arith),
            (down 4000 (omega arith) (omega arith), (down 5000 (omega arith) (omega arith), tt)),
          ),
        ),
      )
      (omega arith) (omega arith) refl
