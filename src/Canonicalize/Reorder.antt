-- ===== src/Canonicalize/Reorder.antt =====
-- Two values that differ in the order of their objects' keys have one canonical text.
use infrgate.Prelude.{
  ◌≡◌, ◌≢◌, refl, ap, ◌∙◌, true, false, Option, some, ◌∷◌, ◌++◌, map, arith, if◌then◌else◌,
}
use mathlib.Core.Path.{ap₂}
use mathlib.Core.List.{append_assoc}
use infrgate.Prelude.Text.{Text, codes}
use infrgate.Prelude.Eq.{List-eq, ◌==◌, list_eq_iff, list_eq, list_eq_refl}
use infrgate.Prelude.Dict.{Dict, lookup}
use infrgate.Prelude.Sort
use infrgate.Prelude.Sort.{insert-insert}
use infrgate.Canonicalize.{
  Value, array, object, Items, nil, cons, Fields, end, field, text_leb, keys, join, pair,
  object_text, canonicalize, elements, members,
}
use infrgate.Canonicalize.Order.{text_leb-IsOrder, text_leb_antisymm}

-- The values that are equal up to the order of keys, at any depth.
mutual
  pub data Same : Value → Value → Type 0 where
    same : (v : Value) → Same v v
    same_array : {xs ys : Items} → SameItems xs ys → Same (array xs) (array ys)
    same_object : {fs gs : Fields} → SameFields fs gs → Same (object fs) (object gs)

  pub data SameItems : Items → Items → Type 0 where
    both_nil : SameItems nil nil
    both_cons :
        {v w : Value} {xs ys : Items}
        → Same v w
        → SameItems xs ys
        → SameItems (cons v xs) (cons w ys)

  pub data SameFields : Fields → Fields → Type 0 where
    both_end : SameFields end end
    both_field :
        {k : Text} {v w : Value} {fs gs : Fields}
        → Same v w
        → SameFields fs gs
        → SameFields (field k v fs) (field k w gs)
    swapped :
        {j k : Text} {v w : Value} {fs : Fields}
        → j ≢ k
        → SameFields (field j v (field k w fs)) (field k w (field j v fs))
    chained : {fs gs hs : Fields} → SameFields fs gs → SameFields gs hs → SameFields fs hs

-- What the text of an object rests on.
record SameTexts (m n : Dict Text (Option Text)) : Type 0 where
  sorted : Sort.sort text_leb (keys m) ≡ Sort.sort text_leb (keys n)
  at : (k : Text) → lookup k m ≡ lookup k n

object_text-SameTexts :
    (m n : Dict Text (Option Text)) → SameTexts m n → object_text m ≡ object_text n
unfolding object_text
object_text-SameTexts m n h =
    λ i. codes "{" ++ (join (map (λ key. some (pair key (h.at key i))) (h.sorted i)) ++ codes "}")

SameTexts-cons :
    (k : Text) (t u : Option Text) (m n : Dict Text (Option Text))
    → t ≡ u
    → SameTexts m n
    → SameTexts ((k, t) ∷ m) ((k, u) ∷ n)
unfolding Sort.sort lookup
SameTexts-cons k t u m n e h = record {
  sorted = ap (Sort.insert text_leb k) h.sorted;
  at = λ q i. if k == q then some (e i) else h.at q i;
}

SameTexts-swap :
    (j k : Text) (t u : Option Text) (m : Dict Text (Option Text))
    → j ≢ k
    → SameTexts ((j, t) ∷ (k, u) ∷ m) ((k, u) ∷ (j, t) ∷ m)
unfolding Sort.sort lookup
SameTexts-swap j k t u m ne = record {
  sorted =
      insert-insert text_leb text_leb-IsOrder text_leb_antisymm j k (Sort.sort text_leb (keys m));
  at = λ q. ground (arith, list_eq_iff j q, list_eq_iff k q);
}

SameTexts-trans : (l m n : Dict Text (Option Text)) → SameTexts l m → SameTexts m n → SameTexts l n
SameTexts-trans l m n h k = record { sorted = h.sorted ∙ k.sorted; at = λ q. h.at q ∙ k.at q }

mutual
  unfolding canonicalize

  canonicalize-Same : {v w : Value} → Same v w → canonicalize v ≡ canonicalize w
  canonicalize-Same (same v) = refl
  canonicalize-Same (same_array h) =
      ap (λ ts. some (codes "[" ++ (join ts ++ codes "]"))) (elements-Same h)
  canonicalize-Same (same_object h) = ap some (object_text-SameTexts _ _ (members-Same h))

  elements-Same : {xs ys : Items} → SameItems xs ys → elements xs ≡ elements ys
  elements-Same both_nil = refl
  elements-Same (both_cons h t) = ap₂ (λ a b. a ∷ b) (canonicalize-Same h) (elements-Same t)

  members-Same : {fs gs : Fields} → SameFields fs gs → SameTexts (members fs) (members gs)
  members-Same both_end = record { sorted = refl; at = λ q. refl }
  members-Same (both_field h t) = SameTexts-cons _ _ _ _ _ (canonicalize-Same h) (members-Same t)
  members-Same (swapped ne) = SameTexts-swap _ _ _ _ _ ne
  members-Same (chained h t) = SameTexts-trans _ _ _ (members-Same h) (members-Same t)

-- Values that are equal up to the order of their objects' keys, at any depth, have one canonical text.
pub order_independent : {v w : Value} → Same v w → canonicalize v ≡ canonicalize w
order_independent h = canonicalize-Same h

-- Keys are not escaped, so that different objects can have one canonical text: for any two keys in
-- order, and a value with a text, the object with the two fields has the text of an object with one,
-- whose key holds the first field and the second key.
pub key_collision :
    (j k t : Text) (v w : Value)
    → text_leb j k ≡ true
    → j ≢ k
    → canonicalize v ≡ some t
    → canonicalize (object (field j v (field k w end)))
      ≡ canonicalize (object (field (j ++ (codes "\":" ++ (t ++ (codes ",\"" ++ k)))) w end))
unfolding canonicalize Sort.sort lookup
key_collision j k t v w le ne e =
    let apart : list_eq j k ≡ false = ground (arith, list_eq_iff j k) in
    simp (le, e, list_eq_refl, apart, append_assoc)
