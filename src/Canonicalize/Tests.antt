-- ===== src/Canonicalize/Tests.antt =====
-- Canonical texts, and the theorems of this part at concrete inputs.
use infrgate.Prelude.{◌≡◌, ◌≢◌, ◌↔◌, refl, sym, ◌∙◌, false, true, some, [], ◌∷◌, ◌++◌, arith}
use mathlib.Core.Bool.{false≢true}
use infrgate.Prelude.Eq.{list_eq, list_eq_iff}
use infrgate.Prelude.Text.{Text, codes}
use infrgate.Prelude.Dict.{lookup}
use infrgate.Prelude.Sort
use infrgate.Canonicalize.{
  Value, null, undefined, boolean, number, string, array, object, nil, cons, end, field,
  canonicalize,
}
use infrgate.Canonicalize.Reorder.{
  Same, same_object, same_array, both_cons, both_nil, swapped, order_independent, key_collision,
}
use infrgate.Canonicalize.Plain.{IsPlain}
use infrgate.Canonicalize.Reader.{◌>>=◌, read}
use infrgate.Canonicalize.Normal.{normal, normal-IsPlain}
use infrgate.Canonicalize.Meaning.{read-canonicalize, canonicalize_iff}

abbrev pub a : Text
a = codes "a"

abbrev pub b : Text
b = codes "b"

pub a-ne-b : a ≢ b
a-ne-b e = false≢true ((list_eq_iff a b).1 e)

abbrev forth : Value
forth = object (field a (number (codes "1")) (field b (string (codes "x\"y")) end))

abbrev back : Value
back = object (field b (string (codes "x\"y")) (field a (number (codes "1")) end))

back_run : canonicalize back ≡ some (codes "{\"a\":1,\"b\":\"x\\\"y\"}")
unfolding canonicalize lookup Sort.sort
back_run = refl

undefined_run : canonicalize (array (cons undefined nil)) ≡ canonicalize (array nil)
unfolding canonicalize
undefined_run = refl

order_independent_example :
    canonicalize (array (cons forth nil)) ≡ canonicalize (array (cons back nil))
order_independent_example =
    order_independent (same_array (both_cons (same_object (swapped a-ne-b)) both_nil))

key_collision_example :
    canonicalize (object (field a (number (codes "1")) (field b null end)))
    ≡ canonicalize
        (object (field (a ++ (codes "\":" ++ (codes "1" ++ (codes ",\"" ++ b)))) null end))
unfolding canonicalize
key_collision_example = key_collision a b (codes "1") (number (codes "1")) null refl a-ne-b refl

-- a string with a quote, a backslash, a control character, a pair of surrogates and one that is alone
abbrev awkward : Value
awkward = string (b'"' ∷ 0x5c ∷ 1 ∷ 0xd83d ∷ 0xde00 ∷ 0xd83d ∷ [])

abbrev mixed : Value
mixed = object (
    field b (array (cons awkward (cons (object end) (cons (boolean true) nil))))
      (field a (number (codes "-1.5e+30")) (field (codes "aa") undefined end)))

differ : (j k : Text) → list_eq j k ≡ false → j ≢ k
differ j k h e = false≢true (sym h ∙ (list_eq_iff j k).1 e)

mixed-IsPlain : IsPlain mixed
mixed-IsPlain = (
  (refl, tt),
  (differ b a refl, (differ b (codes "aa") refl, tt)),
  (tt, omega arith, (tt, tt, (tt, tt, tt))),
  (
    (refl, tt),
    (differ a (codes "aa") refl, tt),
    (refl, (refl, (refl, (refl, (refl, (refl, (refl, (refl, tt)))))))),
    ((refl, (refl, tt)), tt, tt, tt),
  ),
)

mixed_run :
    canonicalize mixed
    ≡ some (
        codes "{\"a\":-1.5e+30,\"aa\":undefined,\"b\":[\"\\\"\\\\\\u0001"
        ++ (0xd83d ∷ 0xde00 ∷ codes "\\ud83d\",{},true]}"))
unfolding canonicalize lookup Sort.sort
mixed_run = refl

read_run : (canonicalize mixed >>= read) ≡ some (normal mixed)
unfolding canonicalize lookup Sort.sort read normal
read_run = refl

read-canonicalize_example :
    ((canonicalize mixed >>= read) ≡ some (normal mixed)) × Same mixed (normal mixed)
read-canonicalize_example = read-canonicalize mixed tt mixed-IsPlain

canonicalize_iff_example :
    (canonicalize mixed ≡ canonicalize (normal mixed)) ↔ Same mixed (normal mixed)
unfolding normal
canonicalize_iff_example =
    canonicalize_iff mixed (normal mixed) tt tt mixed-IsPlain (normal-IsPlain mixed mixed-IsPlain)
