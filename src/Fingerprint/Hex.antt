-- ===== src/Fingerprint/Hex.antt =====
-- The hexadecimal text of a hash.
use infrgate.Prelude.{
  ℕ, ◌+◌, ◌-◌, ◌*◌, ◌≡◌, ◌<◌, refl, ◌&&◌, Option, none, some, List, [], ◌∷◌, length, All, leb,
  arith, if◌then◌else◌,
}
use infrgate.Prelude.Text.{Text}
use infrgate.Fingerprint.{buffer_to_hex}

-- the value of a lowercase digit
abbrev digit_value : ℕ → Option ℕ
digit_value c =
    if leb b'0' c && leb c b'9'
    then some (c - b'0')
    else if leb b'a' c && leb c b'f'
    then some (c - 87)
    else none

abbrev byte_of : Option ℕ → Option ℕ → Option ℕ
byte_of (some h) (some l) = some (16 * h + l)
byte_of none l = none
byte_of (some h) none = none

abbrev push : Option ℕ → Option (List ℕ) → Option (List ℕ)
push (some b) (some bytes) = some (b ∷ bytes)
push none bytes = none
push (some b) none = none

-- a reader of lowercase hexadecimal text
unfoldable pub from_hex : Text → Option (List ℕ)
from_hex [] = some []
from_hex (c ∷ []) = none
from_hex (c ∷ d ∷ s) = push (byte_of (digit_value c) (digit_value d)) (from_hex s)

-- The text has two lowercase digits for each byte, and the bytes can be read back from it.
pub from_hex-buffer_to_hex :
    (bytes : List ℕ)
    → All (λ b. b < 256) bytes
    → (from_hex (buffer_to_hex bytes) ≡ some bytes)
      × (length (buffer_to_hex bytes) ≡ 2 * length bytes)
unfolding from_hex buffer_to_hex
from_hex-buffer_to_hex [] h = (refl, refl)
from_hex-buffer_to_hex (b ∷ bytes) h = ground (arith, from_hex-buffer_to_hex bytes h.1)
