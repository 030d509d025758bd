-- ===== src/ChatClient/Tests.antt =====
-- Chat completions against a gateway that always says the same, and the theorems on them there.
use infrgate.Prelude.{ℕ, arith, ◌≡◌, refl, ap, true, false, none, some, [], ◌∷◌}
use infrgate.Prelude.Text.{codes}
use infrgate.Prelude.Int.{◌+ℤ◌, ◌*ℤ◌, min_ℤ}
use infrgate.Prelude.Dict.{lookup, insert}
use infrgate.Prelude.Decimal.{decimal}
use infrgate.Prelude.Error.{ok}
use infrgate.Fingerprint.{fingerprint, get_subtle_crypto, buffer_to_hex}
use infrgate.Fingerprint.Tests.{platform}
use infrgate.Idempotency
use infrgate.Idempotency.Replay.{view}
use infrgate.RateLimiter
use infrgate.Scorer.Tests.{thousandths}
use infrgate.ControlPlane
use infrgate.ControlPlane.Tests.{key, times, options}
use infrgate.ChatClient.{
  ChatCompletionParams, HttpResponse, InfrGateClientConfig, InfrGateClient, Surroundings, user,
  payload_of, request_of, provider_error, new, handler, create_chat_completion,
}
use infrgate.ChatClient.Requests.{create_completes, create_repeated}

abbrev params : ChatCompletionParams
params = record {
  model = codes "gpt-4";
  messages = (record { role = user; content = codes "Hello!" }) ∷ [];
  temperature = some (codes "0.7");
  max_tokens = none;
  stream = none;
  idempotency_key = some (codes "first");
}

-- the same prompt under another idempotency key
abbrev renamed : ChatCompletionParams
renamed = record params { idempotency_key = some (codes "second") }

abbrev config : InfrGateClientConfig thousandths ℕ
config = record {
  base_url = codes "https://gw";
  api_key = codes "sk";
  control_plane = some (options 2);
  fetch = none;
}

abbrev client : InfrGateClient thousandths ℕ
client = new thousandths config

-- Nobody else calls, and the gateway's response is the one given.
abbrev gateway : HttpResponse ℕ → ℕ → Surroundings thousandths ℕ
gateway response ms = record {
  platform = platform;
  platform_fetch = λ request p. (ok response, p);
  times = times ms;
  during_hash = λ p. p;
  during_get = λ p. p;
  during_check = λ p. p;
  during_json = λ p. p;
  during_set = λ p. p;
}

abbrev fine : HttpResponse ℕ
fine = record { is_ok = true; status = 200; status_text = codes "OK"; json = ok 42 }

abbrev busy : HttpResponse ℕ
busy = record {
  is_ok = false;
  status = 503;
  status_text = codes "Service Unavailable";
  json = ok 0;
}

body_run :
    (request_of config params).body
    ≡ codes
        "{\"model\":\"gpt-4\",\"messages\":[{\"role\":\"user\",\"content\":\"Hello!\"}],\"temperature\":0.7}"
unfolding request_of
body_run = refl

error_run : (provider_error busy).message ≡ codes "Provider error: 503 Service Unavailable"
unfolding provider_error decimal
error_run = refl

key_run : fingerprint platform (payload_of params) ≡ ok key
unfolding fingerprint get_subtle_crypto buffer_to_hex
key_run = refl

-- what the first request leaves in the cache
kept :
    (create_chat_completion
      (gateway fine 2000)
      (codes "1")
      params
      client).1.control_plane.idempotency
    ≡ Idempotency.set client.control_plane.idempotency key 42 200 2000 2000
unfolding new ControlPlane.new Idempotency.new Idempotency.get view lookup RateLimiter.check min_ℤ
    ◌+ℤ◌ RateLimiter.new ◌*ℤ◌
kept =
    ap (λ x. x.1.control_plane.idempotency)
      (create_completes (gateway fine 2000) (codes "1") key params client fine 42 key_run refl refl
        refl refl refl)

-- the second time the gateway is too busy, and is not asked
create_repeated_example :
    let first = create_chat_completion (gateway fine 2000) (codes "1") params client in
    (first.0 ≡ ok 42)
    × ((create_chat_completion (gateway busy 61999) (codes "2") renamed first.1).0 ≡ ok 42)
unfolding new ControlPlane.new Idempotency.new Idempotency.get view lookup insert RateLimiter.check
    min_ℤ ◌+ℤ◌ RateLimiter.new ◌*ℤ◌ handler create_chat_completion
create_repeated_example =
    create_repeated (gateway fine 2000) (gateway busy 61999) (codes "1") (codes "2") key params
      renamed client 42 refl
      (record { model = refl; messages = refl; temperature = refl; max_tokens = refl }) key_run refl
      refl refl kept (omega arith)
