-- ===== src/ControlPlane/Repeat.antt =====
-- One payload, sent twice: one call after the other, and one within the other.
use infrgate.Prelude.{ℕ, ◌+◌, ◌*◌, ◌<◌, ◌≡◌, refl, ap, ◌∙◌, true, none, some, [], ◌∷◌, lt→ltb}
use infrgate.Prelude.Text.{Text}
use infrgate.Prelude.Eq.{List-eq, ==_refl}
use infrgate.Prelude.Error.{ok}
use infrgate.Canonicalize.{Fields}
use infrgate.Fingerprint.{Platform, fingerprint}
use infrgate.Idempotency.{CachedResponse, IdempotencyGuard, get, set}
use infrgate.Idempotency.Replay.{view, get_evicts, view-set}
use infrgate.Scorer.{Arithmetic}
use infrgate.Trace.{idempotency, passed}
use infrgate.ControlPlane.{CallTrace, InfrGateControlPlane, Times, Waits, execute}
use infrgate.ControlPlane.Pipeline.{
  hashed, verdict, limited, stored, steps_of, execute_hit, execute_stored,
}

view-set_early :
    {A : Type 0} (g : IdempotencyGuard A) (key : Text) (body : A) (now later : ℕ)
    → later < now + g.options.ttl_seconds * 1000
    → view (set g key body 200 now now) key later
      ≡ some (record { status_code = 200; body = body; cached_at = now })
view-set_early g key body now later early =
    view-set g key key body 200 now now later ∙ rw (==_refl key) (rw (lt→ltb _ _ early) refl)

module _ {n : Arithmetic} {A : Type 0} (w w' : Waits n A) (t t' : Times) (platform : Platform)
    (id id' tenant tenant' key : Text) (payload : Fields) (p : InfrGateControlPlane n A) where
  -- the plane at the end of the first call's handler
  abbrev pub after_handler : InfrGateControlPlane n A
  after_handler = (w.handler (limited w t platform id tenant key payload p)).1

  -- the cache once the first call's result is stored
  abbrev pub cache_after : A → IdempotencyGuard A
  cache_after result = set after_handler.idempotency key result 200 t.executed.date t.executed.date

  -- the response that it stores
  abbrev response : A → CachedResponse A
  response result = record { status_code = 200; body = result; cached_at = t.executed.date }

  -- A payload that was answered by its handler is answered by the same result when it comes again before
  -- the time to live has passed, from whichever tenant it comes and whatever its second handler is, if no
  -- other call changes the cache in between.
  pub execute_again :
      (result : A)
      → fingerprint platform payload ≡ ok key
      → view (hashed w t platform id tenant key payload p).idempotency key t.looked.date ≡ none
      → (verdict w t platform id tenant key payload p).allowed ≡ true
      → (w.handler (limited w t platform id tenant key payload p)).0 ≡ ok result
      → (w'.during_hash
          (stored w t platform id tenant key payload p result after_handler)).idempotency
        ≡ cache_after result
      → t'.looked.date < t.executed.date + after_handler.idempotency.options.ttl_seconds * 1000
      → let first = execute w t platform id tenant payload p in
        let second = execute w' t' platform id' tenant' payload first.1 in
        (trace trace' : CallTrace) × (first.0 ≡ ok (result, trace))
        × (second.0 ≡ ok (result, trace'))
        × (steps_of trace' ≡ (idempotency, passed) ∷ [])
  execute_again result e gone pays succeeded quiet early =
      let (trace, once, _) =
        execute_stored w t platform id tenant key payload p result e gone pays succeeded in
      let p' = stored w t platform id tenant key payload p result after_handler in
      let hit : view (w'.during_hash p').idempotency key t'.looked.date ≡ some (response result) =
        ap (λ g. view g key t'.looked.date) quiet
        ∙ view-set_early after_handler.idempotency key result t.executed.date t'.looked.date
            early in
      let (trace', twice, steps) =
        execute_hit w' t' platform id' tenant' key payload p' (response result) e hit in
      (trace, trace', ap (λ x. x.0) once, rw once (ap (λ x. x.0) twice), steps)

  -- Two calls of one payload overlap: the second comes while the first one's handler runs. If no other
  -- call changes the cache between their looks at it, and the second is within its limit too, the second
  -- runs its own handler, and answers with that one's result.
  pub execute_overlap :
      (result : A)
      → let first = limited w t platform id tenant key payload p in
        fingerprint platform payload ≡ ok key
        → view (hashed w t platform id tenant key payload p).idempotency key t.looked.date ≡ none
        → (w'.during_hash first).idempotency
          ≡ (get (hashed w t platform id tenant key payload p).idempotency key t.looked.date).1
        → (verdict w' t' platform id' tenant' key payload first).allowed ≡ true
        → (w'.handler (limited w' t' platform id' tenant' key payload first)).0 ≡ ok result
        → (trace : CallTrace) × ((execute w' t' platform id' tenant' payload first).0
            ≡ ok (result, trace))
  unfolding view
  execute_overlap result e gone quiet pays succeeded =
      let first = limited w t platform id tenant key payload p in
      let g = (hashed w t platform id tenant key payload p).idempotency in
      let unseen : view (w'.during_hash first).idempotency key t'.looked.date ≡ none =
        rw quiet (rw (get_evicts g key t.looked.date gone) refl) in
      let (trace, done, _) =
        execute_stored w' t' platform id' tenant' key payload first result e unseen pays
          succeeded in
      (trace, ap (λ x. x.0) done)
