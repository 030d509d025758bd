-- ===== src/MultiProvider/Fallback.antt =====
-- Which provider answers, and what is left where none does.
use infrgate.Prelude.{
  ◌≡◌, refl, ap, ◌⊎◌, inl, inr, Option, none, some, List, [], ◌∷◌, ◌++◌, Option-cases,
}
use infrgate.Prelude.Text.{Text}
use infrgate.Prelude.Error.{Result, ok, throw}
use infrgate.MultiProvider.{all_providers_unavailable, fall_back}

module _ {A P : Type 0} (body : Text → P → Option A × P) where
  -- Each of the providers is tried in turn and gives no answer.
  pub data AllFail : List Text → P → P → Type 0 where
    nobody : (p : P) → AllFail [] p p
    one_more :
        (provider : Text) (others : List Text) (p p' : P)
        → (body provider p).0 ≡ none
        → AllFail others (body provider p).1 p'
        → AllFail (provider ∷ others) p p'

  -- The first answer: everyone before failed.
  pub record FirstAnswer (names : List Text) (p : P) (a : A) (p' : P) : Type 0 where
    pub before : List Text
    pub provider : Text
    pub later : List Text
    pub reached : P
    pub split : names ≡ before ++ (provider ∷ later)
    pub failed : AllFail before p reached
    pub answered : body provider reached ≡ (some a, p')

  fall_back-answered :
      (provider : Text) (others : List Text) (p : P) (a : A)
      → (body provider p).0 ≡ some a
      → fall_back body (provider ∷ others) p ≡ (ok a, (body provider p).1)
  unfolding fall_back
  fall_back-answered provider others p a e = rw (e, fall_back) refl

  fall_back-failed :
      (provider : Text) (others : List Text) (p : P)
      → (body provider p).0 ≡ none
      → fall_back body (provider ∷ others) p ≡ fall_back body others (body provider p).1
  unfolding fall_back
  fall_back-failed provider others p e = rw (e, fall_back) refl

  -- What the loop comes to: the first answer, or no answer at all.
  abbrev pub Ends : List Text → P → Result A × P → Type 0
  Ends names p ended =
      ((a : A) × FirstAnswer names p a ended.1 × (ended.0 ≡ ok a))
      ⊎ (AllFail names p ended.1 × (ended.0 ≡ throw all_providers_unavailable))

  after_failure :
      (provider : Text) (others : List Text) (p : P) (ended : Result A × P)
      → (body provider p).0 ≡ none
      → Ends others (body provider p).1 ended
      → Ends (provider ∷ others) p ended
  after_failure provider others p ended e (inl (a, first, done)) = inl (
    a,
    record {
      before = provider ∷ first.before;
      provider = first.provider;
      later = first.later;
      reached = first.reached;
      split = ap (λ names. provider ∷ names) first.split;
      failed = one_more provider first.before p first.reached e first.failed;
      answered = first.answered;
    },
    done,
  )
  after_failure provider others p ended e (inr (all_failed, done)) =
      inr (one_more provider others p ended.1 e all_failed, done)

  pub fall_back-Ends : (names : List Text) (p : P) → Ends names p (fall_back body names p)
  fall_back-Ends [] p = unfold fall_back in inr (nobody p, refl)
  fall_back-Ends (provider ∷ others) p = elim (Option-cases (body provider p).0) [
    | inl e ↦ rw (fall_back-failed provider others p e) (
        after_failure provider others p (fall_back body others (body provider p).1) e
          (fall_back-Ends others (body provider p).1))
    | inr (a, e) ↦ rw (fall_back-answered provider others p a e) (
        inl (
          a,
          record {
            before = [];
            provider = provider;
            later = others;
            reached = p;
            split = refl;
            failed = nobody p;
            answered = λ i. (e i, (body provider p).1);
          },
          refl,
        ))
  ]
