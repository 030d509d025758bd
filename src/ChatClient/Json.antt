-- ===== src/ChatClient/Json.antt =====
-- JSON.stringify of a value, for the body of a request: the fields stand in the order in which they
-- were given, and those that are undefined are left out.
use infrgate.Prelude.{Option, none, some, List, [], ◌∷◌, ◌++◌}
use infrgate.Prelude.Text.{Text, codes}
use infrgate.Canonicalize.{
  Value, null, undefined, boolean, number, string, array, object, Items, nil, cons, Fields, end,
  field, join, boolean_text,
}
use infrgate.Canonicalize.Quote.{quote}

-- an element that is undefined prints as null
or_null : Option Text → Option Text
or_null none = some (codes "null")
or_null (some t) = some t

-- a field in front of the others
put : Text → Option Text → List (Option Text) → List (Option Text)
put key none others = others
put key (some t) others = some (quote key ++ (codes ":" ++ t)) ∷ others

unfoldable mutual
  unfolding or_null put join quote

  pub stringify : Value → Option Text
  stringify null = some (codes "null")
  stringify undefined = none
  stringify (boolean b) = some (boolean_text b)
  stringify (number t) = some t
  stringify (string s) = some (quote s)
  stringify (array xs) = some (codes "[" ++ (join (stringify_items xs) ++ codes "]"))
  stringify (object fs) = some (codes "{" ++ (join (stringify_fields fs) ++ codes "}"))

  pub stringify_items : Items → List (Option Text)
  stringify_items nil = []
  stringify_items (cons v xs) = or_null (stringify v) ∷ stringify_items xs

  pub stringify_fields : Fields → List (Option Text)
  stringify_fields end = []
  stringify_fields (field k v fs) = put k (stringify v) (stringify_fields fs)
