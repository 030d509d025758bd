-- ===== src/Canonicalize/Quote.antt =====
-- JSON.stringify of a string: quotes, and escapes of quotes, backslashes, control characters and
-- surrogates that stand alone.
use infrgate.Prelude.{ℕ, ◌+◌, ◌/◌, ◌%◌, Bool, ◌&&◌, [], ◌∷◌, ◌++◌, leb, ltb, nat_eq, if◌then◌else◌}
use infrgate.Prelude.Text.{Text, codes}

abbrev pub hex_digit : ℕ → ℕ
hex_digit d = if ltb d 10 then b'0' + d else 87 + d

-- \uXXXX
abbrev pub unicode_escape : ℕ → Text
unicode_escape c =
    codes "\\u"
    ++ (hex_digit (c / 4096)
        ∷ hex_digit (c / 256 % 16)
        ∷ hex_digit (c / 16 % 16)
        ∷ hex_digit (c % 16)
        ∷ [])

abbrev pub is_lead : ℕ → Bool
is_lead c = leb 0xd800 c && leb c 0xdbff

abbrev pub is_trail : ℕ → Bool
is_trail c = leb 0xdc00 c && leb c 0xdfff

-- one code unit that is no part of a surrogate pair
abbrev pub escape : ℕ → Text
escape c =
    if nat_eq c 8
    then codes "\\b"
    else if nat_eq c 9
    then codes "\\t"
    else if nat_eq c 10
    then codes "\\n"
    else if nat_eq c 12
    then codes "\\f"
    else if nat_eq c 13
    then codes "\\r"
    else if nat_eq c b'"'
    then codes "\\\""
    else if nat_eq c 0x5c
    then codes "\\\\"
    else if ltb c 32
    then unicode_escape c
    else if leb 0xd800 c && leb c 0xdfff
    then unicode_escape c
    else c ∷ []

unfoldable pub escape_all : Text → Text
escape_all [] = []
escape_all (c ∷ []) = escape c
escape_all (c ∷ d ∷ s) =
    let alone = escape c ++ escape_all (d ∷ s) in
    let paired = c ∷ d ∷ escape_all s in if is_lead c && is_trail d then paired else alone

unfoldable pub quote : Text → Text
unfolding escape_all
quote s = codes "\"" ++ (escape_all s ++ codes "\"")
