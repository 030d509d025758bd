-- ===== src/ControlPlane/Pipeline.antt =====
-- `execute`, on each of its ways: a replay, a denial, a failing handler, a new response.
use infrgate.Prelude.{◌≡◌, refl, ◌∙◌, true, false, none, some, List, [], ◌∷◌, map, arith}
use infrgate.Prelude.Text.{Text}
use infrgate.Prelude.Eq.{List-eq}
use infrgate.Prelude.Dict.{lookup, insert, erase}
use infrgate.Prelude.Error.{Error, Result, ok, throw}
use infrgate.Canonicalize.{Fields}
use infrgate.Fingerprint.{Platform, fingerprint}
use infrgate.Idempotency
use infrgate.Idempotency.{CachedResponse, IdempotencyGuard}
use infrgate.Idempotency.Replay.{view, get-view}
use infrgate.RateLimiter
use infrgate.RateLimiter.{RateLimitResult}
use infrgate.Scorer.{Arithmetic}
use infrgate.Trace
use infrgate.Trace.{
  TraceStep, idempotency, rate_limit, execution, finalize, TraceStepStatus, passed, Reading, start,
  end, update_first, merge, to_summary,
}
use infrgate.ControlPlane.{
  CallTrace, InfrGateControlPlane, Answer, Times, Waits, rate_limit_error, replay, miss, pass,
  executed, finished, store_response, run_handler, limit, look, execute,
}

-- the trace at the end of each segment
abbrev trace_of : Result CallTrace → CallTrace → CallTrace
trace_of (ok t) d = t
trace_of (throw e) d = d

module _ (id key : Text) (t : Times) (r : RateLimitResult) where
  abbrev begun : CallTrace
  begun = start idempotency none t.begun (Trace.new id)

  abbrev missed : CallTrace
  missed = trace_of (miss key t.checked begun) begun

  abbrev allowed : CallTrace
  allowed = trace_of (pass r t.passed missed) begun

  abbrev handled : CallTrace
  handled = trace_of (executed t.executed allowed) begun

  miss_ok : miss key t.checked begun ≡ ok missed
  unfolding miss Trace.new start end lookup insert erase
  miss_ok = refl

  pass_ok : pass r t.passed missed ≡ ok allowed
  unfolding pass miss Trace.new start end lookup insert erase
  pass_ok = refl

  executed_ok : executed t.executed allowed ≡ ok handled
  unfolding executed pass miss Trace.new start end lookup insert erase
  executed_ok = refl

abbrev pub steps_of : CallTrace → List (TraceStep × TraceStepStatus)
steps_of trace = map (λ s. (s.step, s.status)) (to_summary trace)

abbrev answer_trace : {A : Type 0} → Answer A → CallTrace → CallTrace
answer_trace (ok (a, t)) d = t
answer_trace (throw e) d = d

module _ {A : Type 0} (id key : Text) (t : Times) (r : RateLimitResult) where
  replay_ok :
      (c : CachedResponse A)
      → (trace : CallTrace) × (replay key c t.checked (begun id key t r) ≡ ok (c.body, trace))
        × (steps_of trace ≡ (idempotency, passed) ∷ [])
  unfolding replay Trace.new start end lookup insert erase update_first merge to_summary
  replay_ok c =
      (answer_trace (replay key c t.checked (begun id key t r)) (begun id key t r), refl, refl)

  finished_ok :
      (result : A)
      → (trace : CallTrace) × (finished result t.stored (handled id key t r) ≡ ok (result, trace))
        × (steps_of trace
            ≡ (idempotency, passed)
              ∷ (rate_limit, passed)
              ∷ (execution, passed)
              ∷ (finalize, passed)
              ∷ [])
  unfolding finished executed pass miss Trace.new start end lookup insert erase update_first merge
      to_summary
  finished_ok result =
      (answer_trace (finished result t.stored (handled id key t r)) (begun id key t r), refl, refl)

module _ {n : Arithmetic} {A : Type 0} (w : Waits n A) (t : Times) (platform : Platform)
    (id tenant key : Text) (payload : Fields) (p : InfrGateControlPlane n A) where
  -- the plane as the replay cache is read, and after that
  abbrev pub hashed : InfrGateControlPlane n A
  hashed = w.during_hash p

  abbrev pub got : InfrGateControlPlane n A
  got =
      w.during_get
        (record hashed { idempotency = (Idempotency.get hashed.idempotency key t.looked.date).1 })

  -- the check of the limit, and the plane that the handler starts from
  abbrev pub verdict : RateLimitResult
  verdict = (RateLimiter.check got.rate_limit tenant 1 t.checked.date).0

  abbrev pub limited : InfrGateControlPlane n A
  limited =
      w.during_check
        (record got { rate_limit = (RateLimiter.check got.rate_limit tenant 1 t.checked.date).1 })

  -- the plane once a new result is stored
  abbrev pub stored : A → InfrGateControlPlane n A → InfrGateControlPlane n A
  stored result p' = w.during_set (record p' {
    idempotency = Idempotency.set p'.idempotency key result 200 t.executed.date t.executed.date;
  })

  abbrev start_trace : CallTrace
  start_trace = begun id key t verdict

  execute-look :
      fingerprint platform payload ≡ ok key
      → execute w t platform id tenant payload p ≡ look w t tenant key start_trace hashed
  unfolding execute
  execute-look e = rw (e, execute)

  -- A payload whose response is in the cache and has not expired is answered with its body: the handler
  -- does not run, no token is taken, and nothing changes but by the other calls and by the cache's own
  -- reading.
  pub execute_hit :
      (c : CachedResponse A)
      → fingerprint platform payload ≡ ok key
      → view hashed.idempotency key t.looked.date ≡ some c
      → (trace : CallTrace) × (execute w t platform id tenant payload p ≡ (ok (c.body, trace), got))
        × (steps_of trace ≡ (idempotency, passed) ∷ [])
  unfolding look
  execute_hit c e hit =
      let (trace, replayed, steps) = replay_ok id key t verdict c in
      let cached =
        (get-view hashed.idempotency key key t.looked.date t.looked.date (omega arith)).0 ∙ hit in
      (trace, execute-look e ∙ rw (cached, look) (rw replayed), steps)

  -- a miss leads to the rate limit
  execute-limit :
      fingerprint platform payload ≡ ok key
      → view hashed.idempotency key t.looked.date ≡ none
      → execute w t platform id tenant payload p
        ≡ limit w t tenant key (missed id key t verdict) got
  unfolding look
  execute-limit e gone =
      let cached =
        (get-view hashed.idempotency key key t.looked.date t.looked.date (omega arith)).0 ∙ gone in
      execute-look e ∙ rw (cached, look) (rw (miss_ok id key t verdict))

  -- A new payload of a tenant over the limit is refused with the `RateLimitError` that is made of the
  -- time to wait: the handler does not run and nothing is cached.
  pub execute_denied :
      fingerprint platform payload ≡ ok key
      → view hashed.idempotency key t.looked.date ≡ none
      → verdict.allowed ≡ false
      → execute w t platform id tenant payload p
        ≡ (throw (rate_limit_error verdict.retry_after), limited)
  unfolding limit
  execute_denied e gone refused = execute-limit e gone ∙ rw (refused, limit)

  execute-run_handler :
      fingerprint platform payload ≡ ok key
      → view hashed.idempotency key t.looked.date ≡ none
      → verdict.allowed ≡ true
      → execute w t platform id tenant payload p
        ≡ run_handler w t key verdict (missed id key t verdict) limited
  unfolding limit
  execute-run_handler e gone allowed_now = execute-limit e gone ∙ rw (allowed_now, limit)

  -- A handler that fails fails the call with its own error. Nothing is cached, and the token is spent.
  pub execute_failed :
      (error : Error)
      → fingerprint platform payload ≡ ok key
      → view hashed.idempotency key t.looked.date ≡ none
      → verdict.allowed ≡ true
      → (w.handler limited).0 ≡ throw error
      → execute w t platform id tenant payload p ≡ (throw error, (w.handler limited).1)
  unfolding run_handler
  execute_failed error e gone allowed_now failed =
      execute-run_handler e gone allowed_now
      ∙ rw (pass_ok id key t verdict, run_handler) (rw (failed, run_handler))

  -- A new payload within the limit is answered by its handler's result, with a trace of the four steps,
  -- each of them passed, and the result is cached under the payload's fingerprint.
  pub execute_stored :
      (result : A)
      → fingerprint platform payload ≡ ok key
      → view hashed.idempotency key t.looked.date ≡ none
      → verdict.allowed ≡ true
      → (w.handler limited).0 ≡ ok result
      → (trace : CallTrace) × (execute w t platform id tenant payload p
          ≡ (ok (result, trace), stored result (w.handler limited).1))
        × (steps_of trace
            ≡ (idempotency, passed)
              ∷ (rate_limit, passed)
              ∷ (execution, passed)
              ∷ (finalize, passed)
              ∷ [])
  unfolding run_handler store_response
  execute_stored result e gone allowed_now succeeded =
      let (trace, done, steps) = finished_ok id key t verdict result in
      (
        trace,
        execute-run_handler e gone allowed_now
            ∙ rw (pass_ok id key t verdict, run_handler)
                (rw (succeeded, run_handler)
                  (rw (executed_ok id key t verdict, store_response) (rw done))),
        steps,
      )
