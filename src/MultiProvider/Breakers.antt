-- ===== src/MultiProvider/Breakers.antt =====
-- What one call does to the breakers and to the health of the providers.
use infrgate.Prelude.{
  ℕ, ◌≡◌, ◌≢◌, refl, ap, ◌∙◌, inl, inr, Bool, true, false, some, arith, Bool-cases,
}
use infrgate.Prelude.Text.{Text}
use infrgate.Prelude.Eq.{List-eq, ==_ne}
use infrgate.Prelude.Dict.{lookup, insert, lookup-insert}
use infrgate.Prelude.Error.{Result, ok, throw}
use infrgate.CircuitBreaker.{
  ProviderCircuitBreaker, opened, Admission, rejected, admitted, reject, enter,
  can_attempt_half_open, get_state,
}
use infrgate.Scorer
use infrgate.Scorer.{Arithmetic, get_health}
use infrgate.ControlPlane.{InfrGateControlPlane, get_circuit_breaker}
use infrgate.ControlPlane.Routing.{get_circuit_breaker_lem}
use infrgate.ChatClient.{HttpRequest, HttpResponse}
use infrgate.MultiProvider.{
  Surroundings, CallTimes, request_of, CallResult, turned_away, receive, put_breaker, leave_breaker,
  run_admitted, record_call, call_provider,
}

module _ {n : Arithmetic} {A : Type 0} where
  -- The provider has the same breaker and the same health in both planes.
  pub record IsSameFor (other : Text) (p p' : InfrGateControlPlane n A) : Type 0 where
    pub breaker : lookup other p'.circuit_breakers ≡ lookup other p.circuit_breakers
    pub health : get_health n p'.scorer other ≡ get_health n p.scorer other

  IsSameFor-trans :
      (other : Text) (p q r : InfrGateControlPlane n A)
      → IsSameFor other p q
      → IsSameFor other q r
      → IsSameFor other p r
  IsSameFor-trans other p q r h k = record {
    breaker = k.breaker ∙ h.breaker;
    health = k.health ∙ h.health;
  }

  put_breaker-IsSameFor :
      (provider other : Text) (b : ProviderCircuitBreaker) (p : InfrGateControlPlane n A)
      → provider ≢ other
      → IsSameFor other p (put_breaker provider b p)
  put_breaker-IsSameFor provider other b p ne = record {
    breaker = lookup-insert provider other b p.circuit_breakers ∙ rw (==_ne provider other ne) refl;
    health = refl;
  }

  -- What other calls do while this one waits leaves the provider alone.
  pub record AreQuietFor (other : Text) (s : Surroundings n A) : Type 0 where
    pub fetch :
        (request : HttpRequest) (p : InfrGateControlPlane n A)
        → IsSameFor other p (s.fetch request p).1
    pub during_json : (p : InfrGateControlPlane n A) → IsSameFor other p (s.during_json p)

  pub receive-IsSameFor :
      (other provider : Text) (s : Surroundings n A) (fetched : Result (HttpResponse A))
      (p : InfrGateControlPlane n A)
      → AreQuietFor other s
      → IsSameFor other p (receive provider s.during_json fetched p).1
  unfolding receive
  receive-IsSameFor other provider s (throw e) p quiet = record { breaker = refl; health = refl }
  receive-IsSameFor other provider s (ok response) p quiet = elim (Bool-cases response.is_ok) [
    | inl good ↦ rw (good, receive) (quiet.during_json p)
    | inr bad ↦ rw (bad, receive) (record { breaker = refl; health = refl })
  ]

  leave_breaker-IsSameFor :
      (provider other : Text) (held : ProviderCircuitBreaker) (now : ℕ) (probe : Bool)
      (received : Result A × InfrGateControlPlane n A)
      → provider ≢ other
      → IsSameFor other received.1 (leave_breaker provider held now probe received).1
  unfolding leave_breaker
  leave_breaker-IsSameFor provider other held now probe (result, p) ne =
      put_breaker-IsSameFor provider other _ p ne

  run_admitted-IsSameFor :
      (s : Surroundings n A) (provider other prompt : Text)
      (entry : Admission × ProviderCircuitBreaker) (p : InfrGateControlPlane n A)
      → provider ≢ other
      → AreQuietFor other s
      → IsSameFor other p (run_admitted s provider prompt entry p).1
  unfolding run_admitted
  run_admitted-IsSameFor s provider other prompt (rejected r, b) p ne quiet =
      put_breaker-IsSameFor provider other b p ne
  run_admitted-IsSameFor s provider other prompt (admitted probe, b) p ne quiet =
      let request = request_of provider prompt in
      let entered = put_breaker provider b p in
      let (fetched, arrived) = s.fetch request entered in
      let received = receive provider s.during_json fetched arrived in
      IsSameFor-trans other p entered (leave_breaker provider b s.times.left probe received).1
        (put_breaker-IsSameFor provider other b p ne)
        (IsSameFor-trans other entered arrived
          (leave_breaker provider b s.times.left probe received).1 (quiet.fetch request entered)
          (IsSameFor-trans other arrived received.1
            (leave_breaker provider b s.times.left probe received).1
            (receive-IsSameFor other provider s fetched arrived quiet)
            (leave_breaker-IsSameFor provider other b s.times.left probe received ne)))

  record_call-IsSameFor :
      (elapsed : ℕ → ℕ → n.Carrier) (t : CallTimes) (provider other : Text)
      (ended : CallResult A × InfrGateControlPlane n A)
      → provider ≢ other
      → IsSameFor other ended.1 (record_call elapsed t provider ended).1
  unfolding record_call get_health Scorer.record_signal
  record_call-IsSameFor elapsed t provider other (result, p) ne = record {
    breaker = refl;
    health = rw (lookup-insert, ==_ne provider other ne) refl;
  }

  get_circuit_breaker-IsSameFor :
      (now : ℕ) (provider other : Text) (p : InfrGateControlPlane n A)
      → provider ≢ other
      → IsSameFor other p (get_circuit_breaker now provider p).1
  get_circuit_breaker-IsSameFor now provider other p ne =
      let (_, breaker, _, health) = get_circuit_breaker_lem n now provider other p ne in
      record { breaker = breaker; health = health }

-- A call of one provider changes neither the breaker nor the health of another, however it ends, if what
-- other calls do while it waits does not.
pub call_provider-IsSameFor :
    {n : Arithmetic} {A : Type 0} (elapsed : ℕ → ℕ → n.Carrier) (s : Surroundings n A)
    (provider other prompt : Text) (p : InfrGateControlPlane n A)
    → provider ≢ other
    → AreQuietFor other s
    → IsSameFor other p (call_provider elapsed s provider prompt p).1
unfolding call_provider
call_provider-IsSameFor elapsed s provider other prompt p ne quiet =
    let (breaker, got) = get_circuit_breaker s.times.got provider p in
    let ended = run_admitted s provider prompt (enter s.times.entered breaker) got in
    IsSameFor-trans other p got (record_call elapsed s.times provider ended).1
      (get_circuit_breaker-IsSameFor s.times.got provider other p ne)
      (IsSameFor-trans other got ended.1 (record_call elapsed s.times provider ended).1
        (run_admitted-IsSameFor s provider other prompt (enter s.times.entered breaker) got ne
          quiet)
        (record_call-IsSameFor elapsed s.times provider other ended ne))

pub enter_open :
    (now : ℕ) (b : ProviderCircuitBreaker)
    → b.state ≡ opened
    → can_attempt_half_open now b ≡ false
    → enter now b ≡ (rejected (reject b), b)
unfolding enter get_state
enter_open now b e h = ground arith

get_open :
    {n : Arithmetic} {A : Type 0} (now : ℕ) (provider : Text) (p : InfrGateControlPlane n A)
    (b : ProviderCircuitBreaker)
    → lookup provider p.circuit_breakers ≡ some b
    → b.state ≡ opened
    → can_attempt_half_open now b ≡ false
    → get_circuit_breaker now provider p ≡ (
      b,
      record p {
        circuit_breakers = insert provider b p.circuit_breakers;
        scorer = Scorer.update_availability n p.scorer provider opened;
      },
    )
unfolding get_circuit_breaker
get_open {n} now provider p b found e h =
    let same : get_state now b ≡ b = unfold get_state in ground arith in
    rw (found, same, get_circuit_breaker)
      (ap
        (λ state. (
          b,
          record p {
            circuit_breakers = insert provider b p.circuit_breakers;
            scorer = Scorer.update_availability n p.scorer provider state;
          },
        ))
        e)

-- A provider whose circuit is open is not called: until its recovery timeout has passed, no request is
-- sent to it, whatever the network would answer, its circuit is as it was, and the call counts as an
-- error of the provider all the same, in the time that passed.
pub open_is_skipped :
    {n : Arithmetic} {A : Type 0} (elapsed : ℕ → ℕ → n.Carrier) (s : Surroundings n A)
    (provider prompt : Text) (p : InfrGateControlPlane n A) (b : ProviderCircuitBreaker)
    → lookup provider p.circuit_breakers ≡ some b
    → b.state ≡ opened
    → can_attempt_half_open s.times.got b ≡ false
    → can_attempt_half_open s.times.entered b ≡ false
    → call_provider elapsed s provider prompt p ≡ (
      turned_away (reject b),
      record p {
        circuit_breakers = insert provider b (insert provider b p.circuit_breakers);
        scorer =
            Scorer.record_signal n
              (Scorer.update_availability n p.scorer provider opened)
              provider
              (elapsed s.times.begun s.times.ended)
              true;
      },
    )
unfolding call_provider run_admitted record_call
open_is_skipped {n} elapsed s provider prompt p b found e got entered =
    let there = get_open s.times.got provider p b found e got in
    ap
      (λ r.
        record_call elapsed s.times provider
          (run_admitted s provider prompt (enter s.times.entered r.0) r.1))
      there
    ∙ ap
        (λ entry. record_call elapsed s.times provider (
          run_admitted s provider prompt entry (record p {
            circuit_breakers = insert provider b p.circuit_breakers;
            scorer = Scorer.update_availability n p.scorer provider opened;
          })))
        (enter_open s.times.entered b e entered)
