-- ===== src/Base64url.antt =====
-- libraries/dbal/production/src/security/jwt/base64url.hpp. A text is the list of its bytes. The
-- accumulator of the decoder is an int whose shift drops the high bits: it is kept as its 32 bits.
-- `bits` is `valb + 8`, the number of its bits that are still to come.
pub mod Alphabet
pub mod Roundtrip
use dbal.Prelude.{
  ℕ, zero, suc, ◌+◌, ◌-◌, ◌*◌, ◌/◌, ◌%◌, ◌^◌, Bool, true, false, Option, none, some, List, [], ◌∷◌,
  ◌++◌, map, leb, ◌==◌, if◌then◌else◌, length, codes,
}
use dbal.Bql.Lexer.{Text}

abbrev pub b64chars : Text
b64chars = codes "ABCDEFGHIJKLMNOPQRSTUVWXYZabcdefghijklmnopqrstuvwxyz0123456789+/"

-- `b64chars[n]`, for an index inside of it.
abbrev pub at_index : Text → ℕ → ℕ
at_index [] n = 0
at_index (c ∷ cs) zero = c
at_index (c ∷ cs) (suc n) = at_index cs n

unfoldable pub b64char : ℕ → ℕ
b64char n = at_index b64chars n

abbrev pub one_later : Option ℕ → Option ℕ
one_later none = none
one_later (some n) = some (suc n)

-- `std::string::find` of one character.
abbrev pub index_of : ℕ → Text → Option ℕ
index_of c [] = none
index_of c (d ∷ ds) = if d == c then some 0 else one_later (index_of c ds)

unfoldable pub position : ℕ → Option ℕ
position c = index_of c b64chars

-- The substitutions of the two alphabets.
abbrev pub to_url : ℕ → ℕ
to_url c = if c == 43 then 45 else if c == 47 then 95 else c

abbrev pub from_url : ℕ → ℕ
from_url c = if c == 45 then 43 else if c == 95 then 47 else c

-- Three bytes are the 24 bits of `n`, which `|` puts side by side.
abbrev pub packed : ℕ → ℕ → ℕ → ℕ
packed a b c = a * 65536 + b * 256 + c

abbrev pub sextet : ℕ → ℕ → ℕ
sextet shift n = n / shift % 64

unfoldable pub encode_groups : Text → Text
unfolding b64char
encode_groups [] = []
encode_groups (a ∷ []) =
    b64char (sextet 262144 (packed a 0 0)) ∷ b64char (sextet 4096 (packed a 0 0)) ∷ []
encode_groups (a ∷ b ∷ []) =
    b64char (sextet 262144 (packed a b 0))
    ∷ b64char (sextet 4096 (packed a b 0))
    ∷ b64char (sextet 64 (packed a b 0))
    ∷ []
encode_groups (a ∷ b ∷ c ∷ rest) =
    b64char (sextet 262144 (packed a b c))
    ∷ b64char (sextet 4096 (packed a b c))
    ∷ b64char (sextet 64 (packed a b c))
    ∷ b64char (sextet 1 (packed a b c))
    ∷ encode_groups rest

unfoldable pub base64url_encode : Text → Text
unfolding encode_groups
base64url_encode bytes = map to_url (encode_groups bytes)

abbrev pub equals_signs : ℕ → Text
equals_signs zero = []
equals_signs (suc n) = 61 ∷ equals_signs n

-- `while (s.size() % 4 != 0) s += '=';`
unfoldable pub pad : Text → Text
pad s = s ++ equals_signs ((4 - length s % 4) % 4)

abbrev pub shifted_in : ℕ → ℕ → ℕ
shifted_in val pos = (val * 64 + pos) % 2 ^ 32

unfoldable pub decode_from : ℕ → ℕ → Text → Text
unfolding position
decode_from val bits [] = []
decode_from val bits (c ∷ cs) = elim (c == 61) [
  | true ↦ []
  | false ↦ elim (position c) [
    | none ↦ decode_from val bits cs
    | some pos ↦ elim (leb 8 (bits + 6)) [
      | true ↦
          shifted_in val pos / 2 ^ (bits + 6 - 8) % 256
          ∷ decode_from (shifted_in val pos) (bits + 6 - 8) cs
      | false ↦ decode_from (shifted_in val pos) (bits + 6) cs
    ]
  ]
]

unfoldable pub base64url_decode : Text → Text
unfolding pad decode_from
base64url_decode input = decode_from 0 0 (pad (map from_url input))

abbrev pub hex_chars : Text
hex_chars = codes "0123456789abcdef"

abbrev pub hex_bytes : Text → Text
hex_bytes [] = []
hex_bytes (b ∷ bs) = at_index hex_chars (b / 16 % 16) ∷ at_index hex_chars (b % 16) ∷ hex_bytes bs

unfoldable pub base64url_to_hex : Text → Text
unfolding base64url_decode
base64url_to_hex b64url = hex_bytes (base64url_decode b64url)
