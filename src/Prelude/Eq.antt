-- ===== src/Prelude/Eq.antt =====
-- Equality tests of keys, as an interface: the language's `===` on strings and enumerations.
use Prim.Native.Nat.{ℕ}
use mathlib.Core.Path.{◌≡◌, refl}
use mathlib.Core.Logic.{◌↔◌, ◌≢◌, inl, inr}
use mathlib.Core.Bool.{Bool, true, false, ◌&&◌}
use mathlib.Core.List.{List, [], ◌∷◌}
use native.Mathlib.Omega.{arith}
use infrgate.Prelude.Tests.{nat_eq, nat_eq_iff, Bool-cases}

-- keys that can be told apart by a test
pub record Eq {ℓ} (K : Type ℓ) : Type ℓ where
  pub beq : K → K → Bool
  pub beq_iff : (i j : K) → (beq i j ≡ true) ↔ (i ≡ j)

abbrev pub ◌==◌ {κ} : {K : Type κ} ⦃test : Eq K⦄ (i j : K) → Bool
◌==◌ ⦃test⦄ i j = test.beq i j

infix 50 ◌==◌
pub ==_refl {ℓ} : {A : Type ℓ} ⦃e : Eq A⦄ (a : A) → (a == a) ≡ true
==_refl ⦃e⦄ a = (e.beq_iff a a).1 refl

pub ==_ne {ℓ} : {A : Type ℓ} ⦃e : Eq A⦄ (a b : A) → a ≢ b → (a == b) ≡ false
==_ne ⦃e⦄ a b h = elim (Bool-cases (a == b)) [
  | inl s ↦ absurd (h ((e.beq_iff a b).0 s))
  | inr s ↦ s
]

instance abbrev pub Nat-eq : Eq ℕ
Nat-eq = record { beq = nat_eq; beq_iff = nat_eq_iff }

abbrev pub list_eq : List ℕ → List ℕ → Bool
list_eq [] [] = true
list_eq (x ∷ xs) (y ∷ ys) = nat_eq x y && list_eq xs ys
list_eq _ _ = false

list_eq→eq : (xs ys : List ℕ) → list_eq xs ys ≡ true → xs ≡ ys
list_eq→eq [] [] h = refl
list_eq→eq [] (y ∷ ys) h = cc
list_eq→eq (x ∷ xs) [] h = cc
list_eq→eq (x ∷ xs) (y ∷ ys) h = ground (arith, list_eq→eq xs ys)

pub list_eq_refl : (xs : List ℕ) → list_eq xs xs ≡ true
list_eq_refl [] = refl
list_eq_refl (x ∷ xs) = ground (arith, list_eq_refl xs)

pub list_eq_iff : (xs ys : List ℕ) → (list_eq xs ys ≡ true) ↔ (xs ≡ ys)
list_eq_iff xs ys = (list_eq→eq xs ys, λ e. rw e (list_eq_refl ys))

instance abbrev pub List-eq : Eq (List ℕ)
List-eq = record { beq = list_eq; beq_iff = list_eq_iff }
