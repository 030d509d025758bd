-- ===== src/MultiProvider.antt =====
-- packages/sdk/examples/multi-provider-routing.ts: a prompt goes to the healthiest provider, and to the
-- next one where that fails. `fetch` and the reading of a response's body are parameters, with what
-- other calls make of the plane while they run; so is the content of a body, and the number that the
-- scorer takes for the time between two readings of the clock. The console is left out.
pub mod Fallback
pub mod Completion
pub mod Breakers
pub mod CutOff
pub mod Tests
use infrgate.Prelude.{ℕ, Bool, true, false, Option, none, some, List, [], ◌∷◌, ◌++◌, if◌then◌else◌}
use infrgate.Prelude.Text.{Text, codes}
use infrgate.Prelude.Eq.{List-eq}
use infrgate.Prelude.Dict.{Dict, lookup, insert}
use infrgate.Prelude.Decimal.{decimal}
use infrgate.Prelude.Error.{Error, Result, ok, throw}
use infrgate.Canonicalize.{Fields, number, string, array, object, nil, cons, end, field, or_empty}
use infrgate.CircuitBreaker
use infrgate.CircuitBreaker.{
  ProviderCircuitBreaker, PartialConfig, Rejection, Admission, rejected, admitted, Outcome,
  resolved, failed, enter, leave,
}
use infrgate.Scorer
use infrgate.Scorer.{Arithmetic}
use infrgate.ControlPlane
use infrgate.ControlPlane.{
  ControlPlaneConfig, InfrGateControlPlane, get_circuit_breaker, rank_providers,
}
use infrgate.ChatClient.{HttpRequest, HttpResponse, Fetch}
use infrgate.ChatClient.Json.{stringify}

-- `new InfrGateControlPlane({ circuitBreaker: … })`
abbrev pub config : ControlPlaneConfig
config = record {
  ttl_seconds = none;
  rate_limit = none;
  circuit_breaker = record {
    failure_threshold = some 5;
    failure_window_ms = none;
    recovery_timeout_ms = some 30000;
    success_threshold = some 2;
    half_open_max_requests = none;
  };
}

abbrev pub providers : List Text
providers = codes "openai" ∷ codes "groq" ∷ codes "gemini" ∷ codes "huggingface" ∷ []

abbrev pub endpoints : Dict Text Text
endpoints =
    (codes "openai", codes "https://api.openai.com/v1/chat/completions")
    ∷ (codes "groq", codes "https://api.groq.com/openai/v1/chat/completions")
    ∷ (
      codes "gemini",
      codes "https://generativelanguage.googleapis.com/v1beta/models/gemini-pro:generateContent",
    )
    ∷ (
      codes "huggingface",
      codes "https://api-inference.huggingface.co/models/meta-llama/Meta-Llama-3-8B-Instruct",
    )
    ∷ []

abbrev or_undefined : Option Text → Text
or_undefined none = codes "undefined"
or_undefined (some url) = url

unfoldable pub body_of : Text → Fields
body_of prompt =
    field (codes "messages")
      (array (
        cons
          (object (
            field (codes "role") (string (codes "user"))
              (field (codes "content") (string prompt) end)))
          nil))
      (field (codes "max_tokens") (number (codes "256")) end)

-- what is given to `fetch`
unfoldable pub request_of : Text → Text → HttpRequest
unfolding body_of stringify lookup
request_of provider prompt = record {
  url = or_undefined (lookup provider endpoints);
  method = codes "POST";
  headers = (codes "Content-Type", codes "application/json") ∷ [];
  body = or_empty (stringify (object (body_of prompt)));
}

-- new Error(`${provider} returned ${response.status}`)
unfoldable pub status_error : Text → ℕ → Error
unfolding decimal
status_error provider status = record {
  name = codes "Error";
  message = provider ++ (codes " returned " ++ decimal status);
}

abbrev pub all_providers_unavailable : Error
all_providers_unavailable = record {
  name = codes "Error";
  message = codes "All providers unavailable";
}

-- The readings of the clock: at the start, in `getCircuitBreaker`, in the breaker's `execute` before and
-- after the call, and at the end.
pub record CallTimes : Type 0 where
  pub begun : ℕ
  pub got : ℕ
  pub entered : ℕ
  pub left : ℕ
  pub ended : ℕ

-- what one call meets outside
pub record Surroundings (n : Arithmetic) (A : Type 0) : Type 0 where
  pub times : CallTimes
  pub fetch : Fetch n A
  pub during_json : InfrGateControlPlane n A → InfrGateControlPlane n A

-- what a call of `callProvider` comes to
pub data CallResult (A : Type 0) : Type 0 where
  succeeded : A → CallResult A
  turned_away : Rejection → CallResult A
  broken : Error → CallResult A

abbrev pub outcome_of : {A : Type 0} → Result A → Outcome A
outcome_of (ok a) = resolved a
outcome_of (throw e) = failed e.message

abbrev pub result_of : {A : Type 0} → Result A → CallResult A
result_of (ok a) = succeeded a
result_of (throw e) = broken e

abbrev pub is_error : {A : Type 0} → CallResult A → Bool
is_error (succeeded a) = false
is_error (turned_away r) = true
is_error (broken e) = true

abbrev pub or_held : ProviderCircuitBreaker → Option ProviderCircuitBreaker → ProviderCircuitBreaker
or_held held none = held
or_held held (some b) = b

-- `result.content.slice(0, 100)` throws where there is no content, within the `try`.
abbrev pub answer_of : {A : Type 0} → (A → Option Text) → CallResult A → Option A
answer_of content_of (succeeded a) = elim (content_of a) [ none ↦ none | some content ↦ some a ]
answer_of content_of (turned_away r) = none
answer_of content_of (broken e) = none

-- the loop over the ranked providers
unfoldable pub fall_back : {A P : Type 0} → (Text → P → Option A × P) → List Text → P → Result A × P
fall_back body [] p = (throw all_providers_unavailable, p)
fall_back body (provider ∷ others) p =
    let (answer, p') = body provider p in
    elim answer [ some a ↦ (ok a, p') | none ↦ fall_back body others p' ]

module _ {n : Arithmetic} {A : Type 0} where
  -- the function that the breaker runs, from the response on
  unfoldable pub receive :
      Text
      → (InfrGateControlPlane n A → InfrGateControlPlane n A)
      → Result (HttpResponse A)
      → InfrGateControlPlane n A
      → Result A × InfrGateControlPlane n A
  unfolding status_error
  receive provider during_json (throw e) p = (throw e, p)
  receive provider during_json (ok response) p =
      if response.is_ok
      then (response.json, during_json p)
      else (throw (status_error provider response.status), p)

  -- A breaker is an object of the plane's map.
  abbrev pub put_breaker :
      Text → ProviderCircuitBreaker → InfrGateControlPlane n A → InfrGateControlPlane n A
  put_breaker provider b p = record p { circuit_breakers = insert provider b p.circuit_breakers }

  -- the rest of the breaker's `execute`, at the object as other calls have left it
  unfoldable pub leave_breaker :
      Text
      → ProviderCircuitBreaker
      → ℕ
      → Bool
      → Result A × InfrGateControlPlane n A
      → CallResult A × InfrGateControlPlane n A
  unfolding leave lookup
  leave_breaker provider held now probe (result, p) =
      let b = or_held held (lookup provider p.circuit_breakers) in
      (result_of result, put_breaker provider (leave now probe (outcome_of result) b) p)

  -- `breaker.execute`, from its admission on
  unfoldable pub run_admitted :
      Surroundings n A
      → Text
      → Text
      → Admission × ProviderCircuitBreaker
      → InfrGateControlPlane n A
      → CallResult A × InfrGateControlPlane n A
  unfolding receive leave_breaker request_of
  run_admitted s provider prompt (rejected r, b) p = (turned_away r, put_breaker provider b p)
  run_admitted s provider prompt (admitted probe, b) p =
      let (fetched, p') = s.fetch (request_of provider prompt) (put_breaker provider b p) in
      leave_breaker provider b s.times.left probe (receive provider s.during_json fetched p')

  module _ (elapsed : ℕ → ℕ → n.Carrier) where
    -- `cp.scorer.record`, with the latency so far
    unfoldable pub record_call :
        CallTimes
        → Text
        → CallResult A × InfrGateControlPlane n A
        → CallResult A × InfrGateControlPlane n A
    unfolding Scorer.record_signal
    record_call t provider (result, p) = (
      result,
      record p {
        scorer =
            Scorer.record_signal n p.scorer provider (elapsed t.begun t.ended) (is_error result);
      },
    )

    unfoldable pub call_provider :
        Surroundings n A
        → Text
        → Text
        → InfrGateControlPlane n A
        → CallResult A × InfrGateControlPlane n A
    unfolding run_admitted record_call get_circuit_breaker enter
    call_provider s provider prompt p =
        let (breaker, p') = get_circuit_breaker s.times.got provider p in
        record_call s.times provider
          (run_admitted s provider prompt (enter s.times.entered breaker) p')

    module _ (content_of : A → Option Text) (prompt : Text) (world : Text → Surroundings n A) where
      -- the body of the loop: a result with content is the answer
      unfoldable pub try_provider :
          Text → InfrGateControlPlane n A → Option A × InfrGateControlPlane n A
      unfolding call_provider
      try_provider provider p =
          let (result, p') = call_provider (world provider) provider prompt p in
          (answer_of content_of result, p')

      unfoldable pub generate_completion :
          InfrGateControlPlane n A → Result A × InfrGateControlPlane n A
      unfolding try_provider rank_providers
      generate_completion p = fall_back try_provider (rank_providers p providers) p
