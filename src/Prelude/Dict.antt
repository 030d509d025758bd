-- ===== src/Prelude/Dict.antt =====
-- `Map`, as an association list in insertion order: `set` of a present key keeps its place.
use mathlib.Core.Path.{◌≡◌, refl}
use mathlib.Core.List.{List, [], ◌∷◌}
use mathlib.Core.Option.{Option, none, some}
use native.Mathlib.Omega.{arith}
use infrgate.Prelude.Tests.{if◌then◌else◌}
use infrgate.Prelude.Eq.{Eq, ◌==◌, ==_refl}

abbrev pub Dict {ℓ κ} : Type ℓ → Type κ → Type (ℓ ⊔ κ)
Dict K V = List (K × V)

module _ {ℓ κ} {K : Type ℓ} {V : Type κ} ⦃e : Eq K⦄ where
  -- map.set(k, v)
  unfoldable pub insert : K → V → Dict K V → Dict K V
  insert key new [] = (key, new) ∷ []
  insert key new ((i, old) ∷ rest) =
      if i == key then (i, new) ∷ rest else (i, old) ∷ insert key new rest

  -- map.get(k)
  unfoldable pub lookup : K → Dict K V → Option V
  lookup key [] = none
  lookup key ((i, v) ∷ rest) = if i == key then some v else lookup key rest

  -- map.delete(k); keys are unique, so dropping every entry of the key is dropping the one
  unfoldable pub erase : K → Dict K V → Dict K V
  erase k [] = []
  erase k ((j, v) ∷ m) = let rest = erase k m in if j == k then rest else (j, v) ∷ rest

  -- { ...old, ...more }
  unfoldable pub spread : Dict K V → Dict K V → Dict K V
  spread old [] = old
  spread old ((key, new) ∷ more) = spread (insert key new old) more

  pub lookup-insert :
      (key j : K) (new : V) (d : Dict K V)
      → lookup j (insert key new d) ≡ (if key == j then some new else lookup j d)
  unfolding insert lookup
  lookup-insert key j new [] = refl
  lookup-insert key j new ((i, w) ∷ rest) =
      ground (arith, lookup-insert key j new rest, e.beq_iff i j, e.beq_iff i key, e.beq_iff key j)

  pub lookup-erase :
      (k j : K) (m : Dict K V) → lookup j (erase k m) ≡ (if k == j then none else lookup j m)
  unfolding lookup erase
  lookup-erase k j [] = ground arith
  lookup-erase k j ((i, w) ∷ m) =
      ground (arith, e.beq_iff k j, e.beq_iff i k, e.beq_iff i j, lookup-erase k j m)

  pub lookup-insert_self : (k : K) (v : V) (m : Dict K V) → lookup k (insert k v m) ≡ some v
  lookup-insert_self k v m = rw (lookup-insert, ==_refl k)

pub ruleset dict_laws = (lookup-insert, lookup-erase, lookup-insert_self, ==_refl)
