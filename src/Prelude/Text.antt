-- ===== src/Prelude/Text.antt =====
-- Strings of the language, as sequences of UTF-16 code units.
use Prim.Native.Nat.{ℕ}
use Prim.Native.Char.{code}
use Prim.Native.String.{String}
use mathlib.Core.Path.{◌≡◌}
use mathlib.Core.List.{List, [], ◌∷◌, ◌++◌}

abbrev pub Text : Type 0
Text = List ℕ

-- The code units of a literal, all of whose characters lie in the basic plane.
abbrev pub codes : String → Text
codes String.[] = []
codes (String.◌∷◌ c s) = code c ∷ codes s

-- A common prefix cancels.
pub append_cancel : (p xs ys : Text) → p ++ xs ≡ p ++ ys → xs ≡ ys
append_cancel [] xs ys h = h
append_cancel (x ∷ p) xs ys h = append_cancel p xs ys (cc)
