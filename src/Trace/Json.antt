-- ===== src/Trace/Json.antt =====
-- packages/sdk/src/trace.ts, `toJSON`: the text of a trace, by JSON.stringify with an indentation of two
-- spaces. The values of metadata are the values of JSON, their keys are no indices of an array (which
-- would come first), and the platform's text of a date is a parameter.
use infrgate.Prelude.{ℕ, suc, Option, none, some, List, [], ◌∷◌, ◌++◌, if◌then◌else◌}
use infrgate.Prelude.Decimal.{decimal}
use infrgate.Prelude.Int.{ℤ, pos, negsuc}
use infrgate.Prelude.Text.{Text, codes}
use infrgate.Canonicalize.{
  Value, null, undefined, boolean, number, string, array, object, Items, nil, cons, Fields, end,
  field, boolean_text,
}
use infrgate.Canonicalize.Quote.{quote}
use infrgate.Trace.{
  ErrorInfo, Metadata, TraceEvent, ExecutionTraceBuilder, step_text, get_total_duration_ms,
}

-- the lines between brackets, each with its indentation
abbrev lines : Text → List Text → Text
lines indent [] = []
lines indent (x ∷ []) = 10 ∷ (indent ++ x)
lines indent (x ∷ y ∷ xs) = 10 ∷ (indent ++ (x ++ (codes "," ++ lines indent (y ∷ xs))))

-- Brackets around nothing stay on one line.
abbrev enclose : Text → Text → Text → List Text → Text
enclose left right indent [] = left ++ right
enclose left right indent (x ∷ xs) =
    left ++ (lines (indent ++ codes "  ") (x ∷ xs) ++ (10 ∷ (indent ++ right)))

-- an element that is undefined prints as null
abbrev or_null : Option Text → Text
or_null none = codes "null"
or_null (some t) = t

-- a field in front of the others; one that is undefined is left out
unfoldable pub put : Text → Option Text → List Text → List Text
unfolding quote
put key none others = others
put key (some t) others = (quote key ++ (codes ": " ++ t)) ∷ others

unfoldable mutual
  unfolding put quote

  -- The indentation is the one of the line that the value is on.
  pub stringify : Text → Value → Option Text
  stringify indent null = some (codes "null")
  stringify indent undefined = none
  stringify indent (boolean b) = some (boolean_text b)
  stringify indent (number t) = some t
  stringify indent (string s) = some (quote s)
  stringify indent (array xs) =
      some (enclose (codes "[") (codes "]") indent (stringify_items (indent ++ codes "  ") xs))
  stringify indent (object fs) =
      some (enclose (codes "{") (codes "}") indent (stringify_fields (indent ++ codes "  ") fs))

  pub stringify_items : Text → Items → List Text
  stringify_items indent nil = []
  stringify_items indent (cons v xs) = or_null (stringify indent v) ∷ stringify_items indent xs

  pub stringify_fields : Text → Fields → List Text
  stringify_fields indent end = []
  stringify_fields indent (field k v fs) = put k (stringify indent v) (stringify_fields indent fs)

-- the text of a number
unfoldable pub integer_text : ℤ → Text
unfolding decimal
integer_text (pos n) = decimal n
integer_text (negsuc n) = codes "-" ++ decimal (suc n)

unfoldable pub duration_value : Option ℤ → Value
unfolding integer_text
duration_value none = undefined
duration_value (some d) = number (integer_text d)

abbrev pub metadata_fields : Metadata Value → Fields
metadata_fields [] = end
metadata_fields ((k, v) ∷ more) = field k v (metadata_fields more)

abbrev pub metadata_value : Option (Metadata Value) → Value
metadata_value none = undefined
metadata_value (some m) = object (metadata_fields m)

abbrev pub error_value : Option ErrorInfo → Value
error_value none = undefined
error_value (some e) =
    object (field (codes "type") (string e.kind) (field (codes "message") (string e.message) end))

module _ (to_iso_string : ℕ → Text) where
  unfoldable pub event_value : TraceEvent Value → Value
  unfolding duration_value
  event_value e =
      let duration = duration_value e.duration_ms in
      let metadata = metadata_value e.metadata in
      let error = error_value e.error in
      let rest =
        if e.pushed_by_error
        then field (codes "durationMs") duration
            (field (codes "error") error (field (codes "metadata") metadata end))
        else field (codes "metadata") metadata
            (field (codes "durationMs") duration (field (codes "error") error end)) in
      object (
        field (codes "step") (string (step_text e.step))
          (field (codes "timestamp") (string (to_iso_string e.timestamp)) rest))

  unfoldable pub event_values : List (TraceEvent Value) → Items
  unfolding event_value
  event_values [] = nil
  event_values (e ∷ es) = cons (event_value e) (event_values es)

  unfoldable pub to_json : ExecutionTraceBuilder Value → Text
  unfolding stringify event_values get_total_duration_ms integer_text
  to_json b = or_null (
      stringify [] (
        object (
          field (codes "requestId") (string b.request_id) (
            field (codes "events") (array (event_values b.events)) (
              field (codes "totalDurationMs") (number (integer_text (get_total_duration_ms b)))
                end)))))
