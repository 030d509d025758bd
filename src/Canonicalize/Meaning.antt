-- ===== src/Canonicalize/Meaning.antt =====
-- What a canonical text says: which value it comes from, up to the order of keys.
use infrgate.Prelude.{◌≡◌, refl, sym, ◌↔◌, some, [], suc, length, arith}
use mathlib.Core.List.{append-nil}
use infrgate.Canonicalize.{Value, Items, Fields, canonicalize}
use infrgate.Canonicalize.Reorder.{
  Same, same, same_array, same_object, SameItems, both_nil, both_cons, SameFields, both_end,
  both_field, swapped, chained, order_independent,
}
use infrgate.Canonicalize.Reader.{◌>>=◌, read}
use infrgate.Canonicalize.Plain.{IsDefined, IsPlain, text_of}
use infrgate.Canonicalize.RoundTrip.{read_value-text_of}
use infrgate.Canonicalize.Normal.{normal, normal-IsPlain, normal-Same}
use infrgate.Canonicalize.Faithful.{canonicalize-normal}

pub read-text_of : (v : Value) → IsPlain v → read (text_of v) ≡ some v
unfolding read
read-text_of v p =
    let whole = read_value-text_of (suc (length (text_of v))) v [] p tt (omega arith) in
    rw (rw append-nil at whole) refl

-- The canonical text of a plain value that is defined can be read back, by a reader that knows nothing of the writer:
-- it gives a value that is the same up to the order of keys, at any depth.
pub read-canonicalize :
    (v : Value)
    → IsDefined v
    → IsPlain v
    → ((canonicalize v >>= read) ≡ some (normal v)) × Same v (normal v)
read-canonicalize v d p =
    (rw (canonicalize-normal v d p) (read-text_of (normal v) (normal-IsPlain v p)), normal-Same v p)

mutual
  Same-sym : {v w : Value} → Same v w → Same w v
  Same-sym (same v) = same v
  Same-sym (same_array h) = same_array (SameItems-sym h)
  Same-sym (same_object h) = same_object (SameFields-sym h)

  SameItems-sym : {xs ys : Items} → SameItems xs ys → SameItems ys xs
  SameItems-sym both_nil = both_nil
  SameItems-sym (both_cons h t) = both_cons (Same-sym h) (SameItems-sym t)

  SameFields-sym : {fs gs : Fields} → SameFields fs gs → SameFields gs fs
  SameFields-sym both_end = both_end
  SameFields-sym (both_field h t) = both_field (Same-sym h) (SameFields-sym t)
  SameFields-sym (swapped ne) = swapped (λ e. ne (sym e))
  SameFields-sym (chained h k) = chained (SameFields-sym k) (SameFields-sym h)

mutual
  Same-trans : {u v w : Value} → Same u v → Same v w → Same u w
  Same-trans (same v) k = k
  Same-trans (same_array h) (same v) = same_array h
  Same-trans (same_array h) (same_array k) = same_array (SameItems-trans h k)
  Same-trans (same_object h) (same v) = same_object h
  Same-trans (same_object h) (same_object k) = same_object (chained h k)

  SameItems-trans : {xs ys zs : Items} → SameItems xs ys → SameItems ys zs → SameItems xs zs
  SameItems-trans both_nil k = k
  SameItems-trans (both_cons h t) (both_cons h' t') =
      both_cons (Same-trans h h') (SameItems-trans t t')

pub normal-injective :
    (v w : Value)
    → IsDefined v
    → IsDefined w
    → IsPlain v
    → IsPlain w
    → canonicalize v ≡ canonicalize w
    → normal v ≡ normal w
normal-injective v w d d' p q e =
    let there = (read-canonicalize v d p).0 in
    let here = (read-canonicalize w d' q).0 in cc (there, here, e)

-- Two plain values that are defined have one canonical text exactly when they are the same up to the order of keys, at
-- any depth.
pub canonicalize_iff :
    (v w : Value)
    → IsDefined v
    → IsDefined w
    → IsPlain v
    → IsPlain w
    → (canonicalize v ≡ canonicalize w) ↔ Same v w
canonicalize_iff v w d d' p q =
    let one : canonicalize v ≡ canonicalize w → Same v w = λ e.
      let common = normal-injective v w d d' p q e in
      Same-trans (normal-Same v p) (rw common (Same-sym (normal-Same w q))) in
    (one, order_independent)
