-- ===== src/Prelude/Error.antt =====
-- Thrown errors, and the results of code that may throw.
use infrgate.Prelude.Text.{Text}

-- An `Error` object.
pub record Error : Type 0 where
  pub name : Text
  pub message : Text

pub data Result (A : Type 0) : Type 0 where
  ok : A → Result A
  throw : Error → Result A

infixl 5 ◌>>=◌
abbrev pub ◌>>=◌ : {A B : Type 0} → Result A → (A → Result B) → Result B
ok a >>= f = f a
throw e >>= f = throw e
