-- ===== src/Prelude/Sort.antt =====
-- Array.prototype.sort: a stable sort, by a test that says that one element may stand before another.
use mathlib.Core.Path.{◌≡◌}
use mathlib.Core.Bool.{Bool, true, false}
use mathlib.Core.List.{List, [], ◌∷◌, Perm}
use mathlib.Core.List.Perm
use mathlib.Core.Logic.{inl, inr}
use native.Mathlib.Omega.{arith}
use infrgate.Prelude.Tests.{Bool-cases, if◌then◌else◌}

-- A test by which any two elements can be ordered.
pub record IsOrder {ℓ} {A : Type ℓ} (leq : A → A → Bool) : Type ℓ where
  pub total : (a b : A) → leq a b ≡ false → leq b a ≡ true
  pub trans : (a b c : A) → leq a b ≡ true → leq b c ≡ true → leq a c ≡ true

module _ {ℓ} {A : Type ℓ} (leq : A → A → Bool) where
  unfoldable pub insert : A → List A → List A
  insert x [] = x ∷ []
  insert x (y ∷ ys) = if leq x y then x ∷ y ∷ ys else y ∷ insert x ys

  unfoldable pub sort : List A → List A
  unfolding insert
  sort [] = []
  sort (x ∷ xs) = insert x (sort xs)

  -- nothing after an element may not stand after it
  abbrev pub Below : A → List A → Type 0
  Below x [] = Unit
  Below x (y ∷ ys) = (leq x y ≡ true) × Below x ys

  abbrev pub IsSorted : List A → Type 0
  IsSorted [] = Unit
  IsSorted (x ∷ xs) = Below x xs × IsSorted xs

  insert-perm : (x : A) (xs : List A) → Perm (insert x xs) (x ∷ xs)
  unfolding insert
  insert-perm x [] = Perm.refl (x ∷ [])
  insert-perm x (y ∷ ys) = elim (Bool-cases (leq x y)) [
    | inl e ↦ rw e (Perm.refl (x ∷ y ∷ ys))
    | inr e ↦ rw e (Perm.trans (Perm.cons y (insert-perm x ys)) (Perm.swap x y ys))
  ]

  pub sort-perm : (xs : List A) → Perm (sort xs) xs
  unfolding sort
  sort-perm [] = Perm.refl []
  sort-perm (x ∷ xs) = Perm.trans (insert-perm x (sort xs)) (Perm.cons x (sort-perm xs))

  module _ (o : IsOrder leq) where
    Below-trans : (x y : A) (ys : List A) → leq x y ≡ true → Below y ys → Below x ys
    Below-trans x y [] h b = tt
    Below-trans x y (z ∷ zs) h b = (o.trans x y z h b.0, Below-trans x y zs h b.1)

    Below-insert : (x y : A) (ys : List A) → leq x y ≡ true → Below x ys → Below x (insert y ys)
    unfolding insert
    Below-insert x y [] h b = (h, tt)
    Below-insert x y (z ∷ zs) h b = ground (arith, Below-insert x y zs h b.1)

    insert-IsSorted : (x : A) (xs : List A) → IsSorted xs → IsSorted (insert x xs)
    unfolding insert
    insert-IsSorted x [] s = (tt, tt)
    insert-IsSorted x (y ∷ ys) s = elim (Bool-cases (leq x y)) [
      | inl e ↦ rw e ((e, Below-trans x y ys e s.0), s)
      | inr e ↦ rw e (Below-insert y x ys (o.total x y e) s.0, insert-IsSorted x ys s.1)
    ]

    pub sort-IsSorted : (xs : List A) → IsSorted (sort xs)
    unfolding sort
    sort-IsSorted [] = tt
    sort-IsSorted (x ∷ xs) = insert-IsSorted x (sort xs) (sort-IsSorted xs)

    -- two elements go in in either order, if equal places mean equal elements
    pub insert-insert :
        ((a b : A) → leq a b ≡ true → leq b a ≡ true → a ≡ b)
        → (a b : A) (xs : List A) → insert a (insert b xs) ≡ insert b (insert a xs)
    unfolding insert
    insert-insert anti a b [] = ground (arith, anti a b, o.total a b, o.total b a)
    insert-insert anti a b (c ∷ xs) = ground (
      arith,
      anti a b,
      o.total a b,
      o.total b a,
      o.total a c,
      o.total b c,
      o.trans a b c,
      o.trans b a c,
      insert-insert anti a b xs,
    )
