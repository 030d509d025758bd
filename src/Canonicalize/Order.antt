-- ===== src/Canonicalize/Order.antt =====
-- The order of keys: any two can be compared, and none stand level but equal ones.
use infrgate.Prelude.{◌≡◌, refl, true, false, [], ◌∷◌, arith}
use infrgate.Prelude.Text.{Text}
use infrgate.Prelude.Sort.{IsOrder}
use infrgate.Canonicalize.{text_leb}

text_leb_total : (a b : Text) → text_leb a b ≡ false → text_leb b a ≡ true
text_leb_total [] b h = cc
text_leb_total (x ∷ a) [] h = refl
text_leb_total (x ∷ a) (y ∷ b) h = ground (arith, text_leb_total a b)

text_leb_trans : (a b c : Text) → text_leb a b ≡ true → text_leb b c ≡ true → text_leb a c ≡ true
text_leb_trans [] b c h k = refl
text_leb_trans (x ∷ a) [] c h k = cc
text_leb_trans (x ∷ a) (y ∷ b) [] h k = cc
text_leb_trans (x ∷ a) (y ∷ b) (z ∷ c) h k = ground (arith, text_leb_trans a b c)

pub text_leb_antisymm : (a b : Text) → text_leb a b ≡ true → text_leb b a ≡ true → a ≡ b
text_leb_antisymm [] [] h k = refl
text_leb_antisymm [] (y ∷ b) h k = cc
text_leb_antisymm (x ∷ a) [] h k = cc
text_leb_antisymm (x ∷ a) (y ∷ b) h k = ground (arith, text_leb_antisymm a b)

pub text_leb-IsOrder : IsOrder text_leb
text_leb-IsOrder = record { total = text_leb_total; trans = text_leb_trans }
