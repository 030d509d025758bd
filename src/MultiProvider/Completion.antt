-- ===== src/MultiProvider/Completion.antt =====
-- `generateCompletion`: which provider answers, and what is left where none does.
use mathlib.Core.List.{Perm}
use infrgate.Prelude.{
  arith, ℕ, ◌≡◌, sym, ap, ◌∙◌, ◌⊎◌, inl, inr, Option, none, some, List, [], ◌∷◌, ◌++◌, Option-cases,
}
use infrgate.Prelude.Text.{Text}
use infrgate.Prelude.Error.{ok, throw}
use infrgate.Prelude.Sort.{IsSorted}
use infrgate.Scorer.{Arithmetic, IsArithmetic}
use infrgate.ControlPlane.{InfrGateControlPlane, rank_providers}
use infrgate.ControlPlane.Routing.{not_worse, rank_providers_lem}
use infrgate.MultiProvider.{
  providers, all_providers_unavailable, Surroundings, CallResult, succeeded, turned_away, broken,
  answer_of, call_provider, try_provider, generate_completion,
}
use infrgate.MultiProvider.Fallback.{AllFail, nobody, one_more, FirstAnswer, fall_back-Ends}

module _ {n : Arithmetic} {A : Type 0} (elapsed : ℕ → ℕ → n.Carrier) (content_of : A → Option Text)
    (prompt : Text) (world : Text → Surroundings n A) where
  -- A call that gives no result with content.
  abbrev pub IsNoAnswer : CallResult A → Type 0
  IsNoAnswer (succeeded a) = content_of a ≡ none
  IsNoAnswer (turned_away r) = Unit
  IsNoAnswer (broken e) = Unit

  -- Each of the providers is called once, in turn, and gives no result with content.
  pub data AllDecline
      : List Text → InfrGateControlPlane n A → InfrGateControlPlane n A → Type 0 where
    nobody_called : (p : InfrGateControlPlane n A) → AllDecline [] p p
    next_declines :
        (provider : Text) (others : List Text) (p p' : InfrGateControlPlane n A)
        → IsNoAnswer (call_provider elapsed (world provider) provider prompt p).0
        → AllDecline others (call_provider elapsed (world provider) provider prompt p).1 p'
        → AllDecline (provider ∷ others) p p'

  -- A provider's call succeeds with content, all before it decline, and nobody later is called.
  pub record Completes (names : List Text) (p : InfrGateControlPlane n A) (a : A)
      (p' : InfrGateControlPlane n A) : Type 0 where
    pub before : List Text
    pub provider : Text
    pub later : List Text
    pub reached : InfrGateControlPlane n A
    pub content : Text
    pub split : names ≡ before ++ (provider ∷ later)
    pub declined : AllDecline before p reached
    pub called : call_provider elapsed (world provider) provider prompt reached ≡ (succeeded a, p')
    pub has_content : content_of a ≡ some content

  answer_of-none : (r : CallResult A) → answer_of content_of r ≡ none → IsNoAnswer r
  answer_of-none (succeeded a) h = elim (Option-cases (content_of a)) [
    | inl e ↦ e
    | inr (c, e) ↦ ground (arith, h, e)
  ]
  answer_of-none (turned_away r) h = tt
  answer_of-none (broken e) h = tt

  answer_of-some :
      (r : CallResult A) (a : A)
      → answer_of content_of r ≡ some a
      → (content : Text) × (r ≡ succeeded a) × (content_of a ≡ some content)
  answer_of-some (succeeded a') a h = elim (Option-cases (content_of a')) [
    | inl e ↦ absurd (ground (arith, h, e))
    | inr (c, e) ↦
        let same : a' ≡ a = ground (arith, h, e) in
        (c, ap succeeded same, ap content_of (sym same) ∙ e)
  ]
  answer_of-some (turned_away r) a h = cc
  answer_of-some (broken e) a h = cc

  AllFail-AllDecline :
      (names : List Text) (p p' : InfrGateControlPlane n A)
      → AllFail (try_provider elapsed content_of prompt world) names p p'
      → AllDecline names p p'
  unfolding try_provider
  AllFail-AllDecline [] p _ (nobody _) = nobody_called p
  AllFail-AllDecline (provider ∷ others) p p' (one_more _ _ _ _ e rest) =
      next_declines provider others p p'
        (answer_of-none (call_provider elapsed (world provider) provider prompt p).0 e)
        (AllFail-AllDecline others (call_provider elapsed (world provider) provider prompt p).1 p'
          rest)

  FirstAnswer-Completes :
      (names : List Text) (p p' : InfrGateControlPlane n A) (a : A)
      → FirstAnswer (try_provider elapsed content_of prompt world) names p a p'
      → Completes names p a p'
  unfolding try_provider
  FirstAnswer-Completes names p p' a first =
      let called =
        call_provider elapsed (world first.provider) first.provider prompt first.reached in
      let (content, succeeds, has_content) =
        answer_of-some called.0 a (ap (λ x. x.0) first.answered) in
      record {
        before = first.before;
        provider = first.provider;
        later = first.later;
        reached = first.reached;
        content = content;
        split = first.split;
        declined = AllFail-AllDecline first.before p first.reached first.failed;
        called = λ i. (succeeds i, (first.answered i).1);
        has_content = has_content;
      }

-- The four providers are called in an order in which nobody has a better score than anyone before, and a
-- completion is the first result with content: each one before it was called once and gave none, and
-- nobody after it is called. If nobody gives one, all four were called, and the error says that no
-- provider is available.
pub generate_completion_lem :
    {n : Arithmetic} {A : Type 0} (laws : IsArithmetic n) (elapsed : ℕ → ℕ → n.Carrier)
    (content_of : A → Option Text) (prompt : Text) (world : Text → Surroundings n A)
    (p : InfrGateControlPlane n A)
    → let ended = generate_completion elapsed content_of prompt world p in
      (names : List Text) × Perm names providers
      × IsSorted (not_worse n laws p) names
      × (((a : A) × Completes elapsed content_of prompt world names p a ended.1 × (ended.0 ≡ ok a))
          ⊎ (AllDecline elapsed content_of prompt world names p ended.1
              × (ended.0 ≡ throw all_providers_unavailable)))
unfolding generate_completion
generate_completion_lem {n} {A} laws elapsed content_of prompt world p =
    let names = rank_providers p providers in
    let (permuted, sorted) = rank_providers_lem n laws p providers in
    (
      names,
      permuted,
      sorted,
      elim (fall_back-Ends (try_provider elapsed content_of prompt world) names p) [
        | inl (a, first, done) ↦
            inl (a, FirstAnswer-Completes elapsed content_of prompt world names p _ a first, done)
        | inr (all_failed, done) ↦
            inr (AllFail-AllDecline elapsed content_of prompt world names p _ all_failed, done)
      ],
    )
