-- ===== src/ChatClient/Requests.antt =====
-- Chat completions: a request that the gateway answers, one that it refuses, and one that is repeated.
use infrgate.Prelude.{◌+◌, ◌*◌, ◌<◌, ◌≡◌, sym, ap, ◌∙◌, true, false, none, ◌++◌}
use infrgate.Prelude.Text.{Text, codes}
use infrgate.Prelude.Error.{Result, ok, throw}
use infrgate.Fingerprint.{fingerprint}
use infrgate.Idempotency.{IdempotencyGuard, set}
use infrgate.Idempotency.Replay.{view}
use infrgate.Scorer.{Arithmetic}
use infrgate.ControlPlane.{InfrGateControlPlane, Answer, execute}
use infrgate.ControlPlane.Pipeline.{
  hashed, verdict, limited, stored, execute_failed, execute_stored,
}
use infrgate.ControlPlane.Repeat.{after_handler, execute_again}
use infrgate.ChatClient.{
  ChatCompletionParams, HttpResponse, InfrGateClient, Surroundings, payload_of, request_of,
  fetch_of, receive, handler, provider_error, waits, result_of, create_chat_completion,
}

module _ {n : Arithmetic} {A : Type 0} (s : Surroundings n A) (uuid key : Text)
    (params : ChatCompletionParams) (client : InfrGateClient n A) where
  -- the plane at the hash of the payload, and as the request is sent
  abbrev pub hashed_plane : InfrGateControlPlane n A
  hashed_plane =
      hashed (waits s client.config params) s.times s.platform (codes "req_" ++ uuid)
        client.config.api_key key (payload_of params) client.control_plane

  abbrev pub sending_plane : InfrGateControlPlane n A
  sending_plane =
      limited (waits s client.config params) s.times s.platform (codes "req_" ++ uuid)
        client.config.api_key key (payload_of params) client.control_plane

  -- what `fetch` comes to, and the plane that it leaves
  abbrev pub arrived : Result (HttpResponse A) × InfrGateControlPlane n A
  arrived = fetch_of client.config s.platform_fetch (request_of client.config params) sending_plane

  abbrev pub IsWithinLimit : Type 0
  IsWithinLimit =
      (verdict (waits s client.config params) s.times s.platform (codes "req_" ++ uuid)
        client.config.api_key key (payload_of params) client.control_plane).allowed
      ≡ true

  -- what the client makes of the end of `execute`
  abbrev delivered : Answer A × InfrGateControlPlane n A → Result A × InfrGateClient n A
  delivered (answer, plane) = (result_of answer, record client { control_plane = plane })

  create-execute :
      (ended : Answer A × InfrGateControlPlane n A)
      → execute
          (waits s client.config params)
          s.times
          s.platform
          (codes "req_" ++ uuid)
          client.config.api_key
          (payload_of params)
          client.control_plane
        ≡ ended
      → create_chat_completion s uuid params client ≡ delivered ended
  unfolding create_chat_completion
  create-execute ended e = ap delivered e

  handler-sending :
      (fetched : Result (HttpResponse A))
      → arrived.0 ≡ fetched
      → handler client.config params s.platform_fetch s.during_json sending_plane
        ≡ receive s.during_json fetched arrived.1
  unfolding handler
  handler-sending fetched e = ap (λ r. receive s.during_json r arrived.1) e

  -- A response of the gateway that is not ok fails a new request with the error that is made of it;
  -- nothing is cached, and the plane is as `fetch` left it.
  pub create_provider_error :
      (response : HttpResponse A)
      → fingerprint s.platform (payload_of params) ≡ ok key
      → view hashed_plane.idempotency key s.times.looked.date ≡ none
      → IsWithinLimit
      → arrived.0 ≡ ok response
      → response.is_ok ≡ false
      → create_chat_completion s uuid params client
        ≡ (throw (provider_error response), record client { control_plane = arrived.1 })
  unfolding receive
  create_provider_error response e gone pays came bad =
      let handled = handler-sending (ok response) came ∙ rw (bad, receive) in
      create-execute _ (
        execute_failed (waits s client.config params) s.times s.platform (codes "req_" ++ uuid)
          client.config.api_key key (payload_of params) client.control_plane
          (provider_error response) e gone pays (ap (λ x. x.0) handled)
        ∙ ap (λ x. (throw (provider_error response), x.1)) handled)

  -- A new request within the limit whose response is ok comes to what the response's body reads as, and
  -- that is cached.
  pub create_completes :
      (response : HttpResponse A) (result : A)
      → fingerprint s.platform (payload_of params) ≡ ok key
      → view hashed_plane.idempotency key s.times.looked.date ≡ none
      → IsWithinLimit
      → arrived.0 ≡ ok response
      → response.is_ok ≡ true
      → response.json ≡ ok result
      → create_chat_completion s uuid params client ≡ (
        ok result,
        record client {
          control_plane =
              stored
                (waits s client.config params)
                s.times
                s.platform
                (codes "req_" ++ uuid)
                client.config.api_key
                key
                (payload_of params)
                client.control_plane
                result
                (s.during_json arrived.1);
        },
      )
  unfolding receive
  create_completes response result e gone pays came good read =
      let handled = handler-sending (ok response) came ∙ rw (good, receive) (rw read) in
      let (trace, done, _) =
        execute_stored (waits s client.config params) s.times s.platform (codes "req_" ++ uuid)
          client.config.api_key key (payload_of params) client.control_plane result e gone pays
          (ap (λ x. x.0) handled) in
      create-execute _ done
      ∙ ap
          (λ x. (
            ok result,
            record client {
              control_plane =
                  stored (waits s client.config params) s.times s.platform (codes "req_" ++ uuid)
                    client.config.api_key key (payload_of params) client.control_plane result x.1;
            },
          ))
          handled

-- Parameters that ask for the same completion: `stream` and `idempotencyKey` may differ.
pub record SamePrompt (params params' : ChatCompletionParams) : Type 0 where
  pub model : params'.model ≡ params.model
  pub messages : params'.messages ≡ params.messages
  pub temperature : params'.temperature ≡ params.temperature
  pub max_tokens : params'.max_tokens ≡ params.max_tokens

pub payload_of-SamePrompt :
    (params params' : ChatCompletionParams)
    → SamePrompt params params'
    → payload_of params' ≡ payload_of params
unfolding payload_of
payload_of-SamePrompt params params' same =
    rw (same.model, same.messages, same.temperature, same.max_tokens)

module _ {n : Arithmetic} {A : Type 0} (s s' : Surroundings n A) (uuid uuid' key : Text)
    (params params' : ChatCompletionParams) (client : InfrGateClient n A) where
  -- the plane at the end of the first request, and its cache once the result is stored
  abbrev pub first_plane : InfrGateControlPlane n A
  first_plane =
      after_handler (waits s client.config params) (waits s' client.config params') s.times s'.times
        s.platform (codes "req_" ++ uuid) (codes "req_" ++ uuid') client.config.api_key
        client.config.api_key key (payload_of params) client.control_plane

  abbrev pub first_cache : A → IdempotencyGuard A
  first_cache result =
      set first_plane.idempotency key result 200 s.times.executed.date s.times.executed.date

  -- A prompt that was answered is answered by the same result when it is asked again before the time to
  -- live has passed, whatever the gateway would say now, and although the caller gives it another
  -- idempotency key, if no other call changes the cache in between.
  pub create_repeated :
      (result : A)
      → s'.platform ≡ s.platform
      → SamePrompt params params'
      → fingerprint s.platform (payload_of params) ≡ ok key
      → view (hashed_plane s uuid key params client).idempotency key s.times.looked.date ≡ none
      → IsWithinLimit s uuid key params client
      → (handler client.config params s.platform_fetch s.during_json
          (sending_plane s uuid key params client)).0
        ≡ ok result
      → (s'.during_hash (create_chat_completion s uuid params client).1.control_plane).idempotency
        ≡ first_cache result
      → s'.times.looked.date
        < s.times.executed.date + first_plane.idempotency.options.ttl_seconds * 1000
      → let first = create_chat_completion s uuid params client in
        (first.0 ≡ ok result) × ((create_chat_completion s' uuid' params' first.1).0 ≡ ok result)
  unfolding create_chat_completion
  create_repeated result platform same e gone pays succeeded quiet early =
      let w = waits s client.config params in
      let w' = waits s' client.config params' in
      let id = codes "req_" ++ uuid in
      let id' = codes "req_" ++ uuid' in
      let tenant = client.config.api_key in
      let p = client.control_plane in
      let (_, done, _) =
        execute_stored w s.times s.platform id tenant key (payload_of params) p result e gone pays
          succeeded in
      let kept = ap (λ x. (s'.during_hash x.1).idempotency) (sym done) ∙ quiet in
      let (_, _, once, twice, _) =
        execute_again w w' s.times s'.times s.platform id id' tenant tenant key (payload_of params)
          p result e gone pays succeeded kept early in
      let p' = (execute w s.times s.platform id tenant (payload_of params) p).1 in
      (
        ap result_of once,
        ap (λ f. result_of (execute w' s'.times s'.platform id' tenant f p').0)
              (payload_of-SamePrompt params params' same)
            ∙ ap (λ f. result_of (execute w' s'.times f id' tenant (payload_of params) p').0)
                platform
            ∙ ap result_of twice,
      )
