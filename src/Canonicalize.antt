-- ===== src/Canonicalize.antt =====
-- packages/sdk/src/utils/canonicalize.ts: the canonical text of a value.
pub mod Quote
pub mod Order
pub mod Reorder
pub mod Unquote
pub mod Reader
pub mod Plain
pub mod RoundTrip
pub mod Normal
pub mod Faithful
pub mod Meaning
pub mod Tests
use infrgate.Prelude.{
  ℕ, Bool, true, false, Option, none, some, List, [], ◌∷◌, ◌++◌, map, ltb, nat_eq, if◌then◌else◌,
}
use infrgate.Prelude.Text.{Text, codes}
use infrgate.Prelude.Eq.{List-eq}
use infrgate.Prelude.Dict.{Dict, lookup}
use infrgate.Prelude.Sort
use infrgate.Canonicalize.Quote.{quote}

-- A value that a payload can hold: `typeof` other than `object` are `undefined`, booleans, numbers and
-- strings. A number stands as the text that the language prints it as; `NaN` and the infinities print
-- as `null`. The fields of an object have different keys.
mutual
  pub data Value : Type 0 where
    null : Value
    undefined : Value
    boolean : Bool → Value
    number : Text → Value
    string : Text → Value
    array : Items → Value
    object : Fields → Value

  pub data Items : Type 0 where
    nil : Items
    cons : Value → Items → Items

  pub data Fields : Type 0 where
    end : Fields
    field : Text → Value → Fields → Fields

-- The order of two strings by their code units, which `sort` goes by.
abbrev pub text_leb : Text → Text → Bool
text_leb [] ys = true
text_leb (x ∷ xs) [] = false
text_leb (x ∷ xs) (y ∷ ys) = if ltb x y then true else if nat_eq x y then text_leb xs ys else false

-- `join(',')`: an element that is undefined is empty
abbrev pub or_empty : Option Text → Text
or_empty none = []
or_empty (some t) = t

unfoldable pub join : List (Option Text) → Text
join [] = []
join (x ∷ []) = or_empty x
join (x ∷ y ∷ xs) = or_empty x ++ (codes "," ++ join (y ∷ xs))

-- `${value}`
abbrev pub in_template : Option (Option Text) → Text
in_template none = codes "undefined"
in_template (some none) = codes "undefined"
in_template (some (some t)) = t

-- `"${key}":${value}`
unfoldable pub pair : Text → Option (Option Text) → Text
pair key value = codes "\"" ++ (key ++ (codes "\":" ++ in_template value))

abbrev pub keys {ℓ} : {A : Type ℓ} → Dict Text A → List Text
keys [] = []
keys ((k, v) ∷ m) = k ∷ keys m

-- JSON.stringify of what is no object
abbrev pub boolean_text : Bool → Text
boolean_text true = codes "true"
boolean_text false = codes "false"

-- the text of an object, from the texts of its fields: the keys are sorted, and each is looked up
unfoldable pub object_text : Dict Text (Option Text) → Text
unfolding join pair
object_text rendered =
    codes "{"
    ++ (join
          (map (λ key. some (pair key (lookup key rendered))) (Sort.sort text_leb (keys rendered)))
        ++ codes "}")

-- `none` is `undefined`. The fields' values are rendered first and picked by the sorted keys.
unfoldable mutual
  unfolding join object_text quote

  pub canonicalize : Value → Option Text
  canonicalize null = some (codes "null")
  canonicalize undefined = none
  canonicalize (boolean b) = some (boolean_text b)
  canonicalize (number t) = some t
  canonicalize (string s) = some (quote s)
  canonicalize (array xs) = some (codes "[" ++ (join (elements xs) ++ codes "]"))
  canonicalize (object fs) = some (object_text (members fs))

  pub elements : Items → List (Option Text)
  elements nil = []
  elements (cons v xs) = canonicalize v ∷ elements xs

  pub members : Fields → Dict Text (Option Text)
  members end = []
  members (field k v fs) = (k, canonicalize v) ∷ members fs
