-- ===== src/ChatClient.antt =====
-- packages/sdk/src/client.ts, `InfrGateClient`: one chat completion is one request to the gateway,
-- sent by the handler of a call of `InfrGateControlPlane.execute`. `fetch` and the body that
-- `response.json()` reads are parameters: `fetch` is given the request, and what other calls make of
-- the plane while it waits is a part of it. The random part of the request's id is an argument.
pub mod Json
pub mod Requests
pub mod Prompts
pub mod PromptTests
pub mod Tests
use infrgate.Prelude.{ℕ, Bool, Option, none, some, List, [], ◌∷◌, ◌++◌, if◌then◌else◌}
use infrgate.Prelude.Text.{Text, codes}
use infrgate.Prelude.Error.{Error, Result, ok, throw}
use infrgate.Prelude.Decimal.{decimal}
use infrgate.Canonicalize.{
  Value, undefined, number, string, array, object, Items, nil, cons, Fields, end, field, or_empty,
}
use infrgate.ChatClient.Json.{stringify}
use infrgate.Fingerprint.{Platform}
use infrgate.Scorer.{Arithmetic}
use infrgate.ControlPlane
use infrgate.ControlPlane.{ControlPlaneConfig, InfrGateControlPlane, Answer, Times, Waits}

pub data Role : Type 0 where
  system user assistant : Role

abbrev pub role_text : Role → Text
role_text system = codes "system"
role_text user = codes "user"
role_text assistant = codes "assistant"

pub record ChatMessage : Type 0 where
  pub role : Role
  pub content : Text

-- Numbers stand as their printed text. `stream` is never read.
pub record ChatCompletionParams : Type 0 where
  pub model : Text
  pub messages : List ChatMessage
  pub temperature : Option Text
  pub max_tokens : Option Text
  pub stream : Option Bool
  pub idempotency_key : Option Text

-- what the handler gives to `fetch`
pub record HttpRequest : Type 0 where
  pub url : Text
  pub method : Text
  pub headers : List (Text × Text)
  pub body : Text

-- a `Response`, with what `json()` comes to
pub record HttpResponse (A : Type 0) : Type 0 where
  pub is_ok : Bool
  pub status : ℕ
  pub status_text : Text
  pub json : Result A

abbrev pub Fetch : Arithmetic → Type 0 → Type 0
Fetch n A =
    HttpRequest → InfrGateControlPlane n A → Result (HttpResponse A) × InfrGateControlPlane n A

pub record InfrGateClientConfig (n : Arithmetic) (A : Type 0) : Type 0 where
  pub base_url : Text
  pub api_key : Text
  pub control_plane : Option ControlPlaneConfig
  pub fetch : Option (Fetch n A)

pub record InfrGateClient (n : Arithmetic) (A : Type 0) : Type 0 where
  pub config : InfrGateClientConfig n A
  pub control_plane : InfrGateControlPlane n A

-- `constructor(config: ControlPlaneConfig = {})`
abbrev config_or_empty : Option ControlPlaneConfig → ControlPlaneConfig
config_or_empty none = record {
  ttl_seconds = none;
  rate_limit = none;
  circuit_breaker = record {
    failure_threshold = none;
    failure_window_ms = none;
    recovery_timeout_ms = none;
    success_threshold = none;
    half_open_max_requests = none;
  };
}
config_or_empty (some c) = c

-- the constructor
unfoldable pub new : (n : Arithmetic) {A : Type 0} → InfrGateClientConfig n A → InfrGateClient n A
new n c = record {
  config = c;
  control_plane = ControlPlane.new n (config_or_empty c.control_plane);
}

abbrev pub number_or_undefined : Option Text → Value
number_or_undefined none = undefined
number_or_undefined (some t) = number t

unfoldable pub message_values : List ChatMessage → Items
message_values [] = nil
message_values (m ∷ ms) =
    cons
      (object (
        field (codes "role") (string (role_text m.role))
          (field (codes "content") (string m.content) end)))
      (message_values ms)

unfoldable pub payload_of : ChatCompletionParams → Fields
unfolding message_values
payload_of params = field (codes "model") (string params.model) (
    field (codes "messages") (array (message_values params.messages)) (
      field (codes "temperature") (number_or_undefined params.temperature)
        (field (codes "max_tokens") (number_or_undefined params.max_tokens) end)))

-- `if (params.idempotencyKey)`: an empty one counts as none
abbrev key_header : Option Text → List (Text × Text)
key_header none = []
key_header (some []) = []
key_header (some (c ∷ key)) = (codes "Idempotency-Key", c ∷ key) ∷ []

-- new Error(`Provider error: ${response.status} ${response.statusText}`)
unfoldable pub provider_error : {A : Type 0} → HttpResponse A → Error
provider_error response = record {
  name = codes "Error";
  message =
      codes "Provider error: " ++ (decimal response.status ++ (codes " " ++ response.status_text));
}

module _ {n : Arithmetic} {A : Type 0} where
  -- the request that the handler sends
  unfoldable pub request_of : InfrGateClientConfig n A → ChatCompletionParams → HttpRequest
  unfolding payload_of stringify
  request_of c params = record {
    url = c.base_url ++ codes "/v1/chat/completions";
    method = codes "POST";
    headers =
        (codes "Content-Type", codes "application/json")
        ∷ (codes "Authorization", codes "Bearer " ++ c.api_key)
        ∷ key_header params.idempotency_key;
    body = or_empty (stringify (object (payload_of params)));
  }

  -- `this.config.fetch ?? fetch`
  abbrev pub fetch_of : InfrGateClientConfig n A → Fetch n A → Fetch n A
  fetch_of c platform_fetch = elim c.fetch [ none ↦ platform_fetch | some f ↦ f ]

  -- the handler, from the response on: `during_json` is what other calls do while the body is read
  unfoldable pub receive :
      (InfrGateControlPlane n A → InfrGateControlPlane n A)
      → Result (HttpResponse A)
      → InfrGateControlPlane n A
      → Result A × InfrGateControlPlane n A
  receive during_json (throw e) p = (throw e, p)
  receive during_json (ok response) p =
      if response.is_ok
      then (response.json, during_json p)
      else (throw (provider_error response), p)

  unfoldable pub handler :
      InfrGateClientConfig n A
      → ChatCompletionParams
      → Fetch n A
      → (InfrGateControlPlane n A → InfrGateControlPlane n A)
      → InfrGateControlPlane n A
      → Result A × InfrGateControlPlane n A
  unfolding receive
  handler c params platform_fetch during_json p =
      let (arrived, p') = fetch_of c platform_fetch (request_of c params) p in
      receive during_json arrived p'

-- `{ result }` of what `execute` comes to
abbrev pub result_of : {A : Type 0} → Answer A → Result A
result_of (ok (result, trace)) = ok result
result_of (throw e) = throw e

-- The surroundings of a call: the platform, and what other calls do at each await.
pub record Surroundings (n : Arithmetic) (A : Type 0) : Type 0 where
  pub platform : Platform
  pub platform_fetch : Fetch n A
  pub times : Times
  pub during_hash : InfrGateControlPlane n A → InfrGateControlPlane n A
  pub during_get : InfrGateControlPlane n A → InfrGateControlPlane n A
  pub during_check : InfrGateControlPlane n A → InfrGateControlPlane n A
  pub during_json : InfrGateControlPlane n A → InfrGateControlPlane n A
  pub during_set : InfrGateControlPlane n A → InfrGateControlPlane n A

module _ {n : Arithmetic} {A : Type 0} where
  abbrev pub waits : Surroundings n A → InfrGateClientConfig n A → ChatCompletionParams → Waits n A
  waits s c params = record {
    during_hash = s.during_hash;
    during_get = s.during_get;
    during_check = s.during_check;
    handler = handler c params s.platform_fetch s.during_json;
    during_set = s.during_set;
  }

  -- `createChatCompletion`: `uuid` is what `crypto.randomUUID()` gives
  unfoldable pub create_chat_completion :
      Surroundings n A
      → Text
      → ChatCompletionParams
      → InfrGateClient n A
      → Result A × InfrGateClient n A
  create_chat_completion s uuid params client =
      let (answer, plane) =
        ControlPlane.execute (waits s client.config params) s.times s.platform
          (codes "req_" ++ uuid) client.config.api_key (payload_of params) client.control_plane in
      (result_of answer, record client { control_plane = plane })
