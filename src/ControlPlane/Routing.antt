-- ===== src/ControlPlane/Routing.antt =====
-- `rankProviders` and `getCircuitBreaker`.
use mathlib.Core.List.{Perm}
use infrgate.Prelude.{ℕ, ◌≡◌, ◌≢◌, refl, sym, ap, ◌∙◌, Bool, some, List, [], ◌∷◌, map, arith}
use infrgate.Prelude.Text.{Text}
use infrgate.Prelude.Eq.{List-eq, ==_ne}
use infrgate.Prelude.Dict.{Dict, lookup, insert, lookup-insert, lookup-insert_self}
use infrgate.Prelude.Sort
use infrgate.Prelude.Sort.{IsOrder, IsSorted, Below}
use infrgate.CircuitBreaker.{CircuitState}
use infrgate.Scorer
use infrgate.Scorer.{Arithmetic, IsArithmetic, get_health, availability_of}
use infrgate.ControlPlane.{
  InfrGateControlPlane, get_circuit_breaker, rank_providers, scored, may_precede,
}

module _ {ℓ κ} {A : Type ℓ} {B : Type κ} (f : A → B) (leq : B → B → Bool) where
  insert-map :
      (x : A) (xs : List A)
      → Sort.insert leq (f x) (map f xs) ≡ map f (Sort.insert (λ a b. leq (f a) (f b)) x xs)
  unfolding Sort.insert
  insert-map x [] = refl
  insert-map x (y ∷ ys) = ground (arith, insert-map x ys)

  -- to sort images is to sort by them
  sort-map :
      (xs : List A) → Sort.sort leq (map f xs) ≡ map f (Sort.sort (λ a b. leq (f a) (f b)) xs)
  unfolding Sort.sort
  sort-map [] = refl
  sort-map (x ∷ xs) = rw (sort-map xs) (insert-map x (Sort.sort (λ a b. leq (f a) (f b)) xs))

module _ {ℓ} {A : Type ℓ} (l m : A → A → Bool) (h : (a b : A) → l a b ≡ m a b) where
  Below-same : (x : A) (ys : List A) → Below l x ys → Below m x ys
  Below-same x [] s = tt
  Below-same x (y ∷ ys) s = (sym (h x y) ∙ s.0, Below-same x ys s.1)

  IsSorted-same : (xs : List A) → IsSorted l xs → IsSorted m xs
  IsSorted-same [] s = tt
  IsSorted-same (x ∷ xs) s = (Below-same x xs s.0, IsSorted-same xs s.1)

module _ (n : Arithmetic) (laws : IsArithmetic n) {A : Type 0} (p : InfrGateControlPlane n A) where
  -- the score of a provider is not below that of another
  abbrev pub not_worse : Text → Text → Bool
  not_worse a b = n.leb (scored p b).1 (scored p a).1

  by_score : Text → Text → Bool
  by_score a b = may_precede n (scored p a) (scored p b)

  by_score-not_worse : (a b : Text) → by_score a b ≡ not_worse a b
  unfolding by_score
  by_score-not_worse a b = laws.sub-nought (scored p b).1 (scored p a).1

  by_score-IsOrder : IsOrder by_score
  unfolding by_score
  by_score-IsOrder = record {
    total = λ a b h.
        by_score-not_worse b a
        ∙ laws.total (scored p b).1 (scored p a).1 (sym (by_score-not_worse a b) ∙ h);
    trans = λ a b c h k.
        by_score-not_worse a c
        ∙ laws.trans (scored p c).1 (scored p b).1 (scored p a).1 (sym (by_score-not_worse b c) ∙ k)
            (sym (by_score-not_worse a b) ∙ h);
  }

  names-scored : (xs : List Text) → map (λ s. s.0) (map (scored p) xs) ≡ xs
  names-scored [] = refl
  names-scored (x ∷ xs) = ap (λ r. x ∷ r) (names-scored xs)

  rank_providers-sort : (xs : List Text) → rank_providers p xs ≡ Sort.sort by_score xs
  unfolding rank_providers by_score
  rank_providers-sort xs =
      rw (sort-map (scored p) (may_precede n) xs) (names-scored (Sort.sort by_score xs))

  -- Ranking puts the given providers, each as often as it was given, in an order in which nobody has a
  -- better score than anyone before.
  pub rank_providers_lem :
      (xs : List Text) → Perm (rank_providers p xs) xs × IsSorted not_worse (rank_providers p xs)
  rank_providers_lem xs = rw rank_providers-sort (
    Sort.sort-perm by_score xs,
    IsSorted-same by_score not_worse by_score-not_worse (Sort.sort by_score xs)
        (Sort.sort-IsSorted by_score by_score-IsOrder xs),
  )

module _ {V : Type 0} (name other : Text) (v : V) (m : Dict Text V) (h : name ≢ other) where
  lookup-insert_other : lookup other (insert name v m) ≡ lookup other m
  lookup-insert_other = lookup-insert name other v m ∙ rw (==_ne name other h) refl

module _ (n : Arithmetic) (s : Scorer.AdapterScorer n.Carrier) (name other : Text)
    (state : CircuitState) where
  availability-update :
      (get_health n (Scorer.update_availability n s name state) name).availability
      ≡ availability_of n state
  unfolding get_health Scorer.update_availability
  availability-update = rw lookup-insert_self refl

  health-update_other :
      name ≢ other
      → get_health n (Scorer.update_availability n s name state) other ≡ get_health n s other
  unfolding get_health Scorer.update_availability
  health-update_other h = rw (lookup-insert, ==_ne name other h) refl

-- The breaker that `getCircuitBreaker` returns is the provider's in the map from then on, the breakers
-- of the others are left as they were, and the provider's availability, and nobody else's health, is
-- set to what the breaker's state is worth.
pub get_circuit_breaker_lem :
    (n : Arithmetic) {A : Type 0} (now : ℕ) (name other : Text) (p : InfrGateControlPlane n A)
    → name ≢ other
    → let (breaker, p') = get_circuit_breaker now name p in
      (lookup name p'.circuit_breakers ≡ some breaker)
      × (lookup other p'.circuit_breakers ≡ lookup other p.circuit_breakers)
      × ((get_health n p'.scorer name).availability ≡ availability_of n breaker.state)
      × (get_health n p'.scorer other ≡ get_health n p.scorer other)
unfolding get_circuit_breaker
get_circuit_breaker_lem n now name other p h =
    let breaker = (get_circuit_breaker now name p).0 in
    (
      lookup-insert_self name breaker p.circuit_breakers,
      lookup-insert_other name other breaker p.circuit_breakers h,
      availability-update n p.scorer name other breaker.state,
      health-update_other n p.scorer name other breaker.state h,
    )
