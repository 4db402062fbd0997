-- ===== src/Base64url/Roundtrip.antt =====
-- libraries/dbal/production/src/security/jwt/base64url.hpp: the decoding of what was encoded.
use Prim.{Unit}
use dbal.Prelude.{ℕ, zero, suc, ◌/◌, ◌%◌, ◌<◌, ◌≡◌, refl, ap, ap₂, ◌∙◌, [], ◌∷◌, ◌++◌, map, arith}
use dbal.Bql.Lexer.{Text}
use dbal.Base64url.{
  b64char, to_url, from_url, packed, sextet, encode_groups, base64url_encode, equals_signs, pad,
  shifted_in, decode_from, base64url_decode,
}
use dbal.Base64url.Alphabet.{b64char-position}

-- Each byte is less than 256.
abbrev pub AreBytes : Text → Type 0
AreBytes [] = Unit
AreBytes (b ∷ bs) = (b < 256) × AreBytes bs

-- The four states of the decoder in a group.
decode_first :
    (val p : ℕ) (cs : Text)
    → p < 64
    → decode_from val 0 (b64char p ∷ cs) ≡ decode_from (shifted_in val p) 6 cs
unfolding decode_from
decode_first val p cs h =
    let (at, other, back) = b64char-position p h in
    rw (other, decode_from) (rw (at, decode_from) refl)

decode_second :
    (val p : ℕ) (cs : Text)
    → p < 64
    → decode_from val 6 (b64char p ∷ cs)
      ≡ shifted_in val p / 16 % 256 ∷ decode_from (shifted_in val p) 4 cs
unfolding decode_from
decode_second val p cs h =
    let (at, other, back) = b64char-position p h in
    rw (other, decode_from) (rw (at, decode_from) refl)

decode_third :
    (val p : ℕ) (cs : Text)
    → p < 64
    → decode_from val 4 (b64char p ∷ cs)
      ≡ shifted_in val p / 4 % 256 ∷ decode_from (shifted_in val p) 2 cs
unfolding decode_from
decode_third val p cs h =
    let (at, other, back) = b64char-position p h in
    rw (other, decode_from) (rw (at, decode_from) refl)

decode_fourth :
    (val p : ℕ) (cs : Text)
    → p < 64
    → decode_from val 2 (b64char p ∷ cs)
      ≡ shifted_in val p / 1 % 256 ∷ decode_from (shifted_in val p) 0 cs
unfolding decode_from
decode_fourth val p cs h =
    let (at, other, back) = b64char-position p h in
    rw (other, decode_from) (rw (at, decode_from) refl)

-- At the end or at a '=' nothing more is decoded.
data IsTail : Text → Type 0 where
  ends : IsTail []
  pads : {cs : Text} → IsTail (61 ∷ cs)

decode-tail : (val bits : ℕ) (cs : Text) → IsTail cs → decode_from val bits cs ≡ []
unfolding decode_from
decode-tail val bits [] ends = refl
decode-tail val bits (c ∷ cs) pads = refl

-- The bits of a byte are where the shifts look for them, whatever stands above.
byte_one :
    (val a b c : ℕ)
    → a < 256
    → b < 256
    → c < 256
    → shifted_in (shifted_in val (sextet 262144 (packed a b c))) (sextet 4096 (packed a b c))
        / 16
        % 256
      ≡ a
byte_one val a b c ha hb hc = omega arith

byte_two :
    (val a b c : ℕ)
    → a < 256
    → b < 256
    → c < 256
    → shifted_in (shifted_in val (sextet 4096 (packed a b c))) (sextet 64 (packed a b c)) / 4 % 256
      ≡ b
byte_two val a b c ha hb hc = omega arith

byte_three :
    (val a b c : ℕ)
    → a < 256
    → b < 256
    → c < 256
    → shifted_in (shifted_in val (sextet 64 (packed a b c))) (sextet 1 (packed a b c)) / 1 % 256 ≡ c
byte_three val a b c ha hb hc = omega arith

sextet-bound : (shift n : ℕ) → sextet shift n < 64
sextet-bound shift n = omega arith

-- The bytes of one, two and three that are packed, in front of what the rest decodes to.
decode_two :
    (val a b c : ℕ) (cs : Text)
    → a < 256
    → b < 256
    → c < 256
    → decode_from val 0
        (b64char (sextet 262144 (packed a b c)) ∷ b64char (sextet 4096 (packed a b c)) ∷ cs)
      ≡ a
        ∷ decode_from
            (shifted_in
              (shifted_in val (sextet 262144 (packed a b c)))
              (sextet 4096 (packed a b c)))
            4
            cs
decode_two val a b c cs ha hb hc =
    let n = packed a b c in
    decode_first val (sextet 262144 n) (b64char (sextet 4096 n) ∷ cs) (sextet-bound 262144 n)
    ∙ decode_second (shifted_in val (sextet 262144 n)) (sextet 4096 n) cs (sextet-bound 4096 n)
    ∙ ap
        (λ (k : ℕ).
          k ∷ decode_from (shifted_in (shifted_in val (sextet 262144 n)) (sextet 4096 n)) 4 cs)
        (byte_one val a b c ha hb hc)

third_byte :
    (val a b c : ℕ) (cs : Text)
    → a < 256
    → b < 256
    → c < 256
    → decode_from
        (shifted_in val (sextet 4096 (packed a b c)))
        4
        (b64char (sextet 64 (packed a b c)) ∷ cs)
      ≡ b
        ∷ decode_from
            (shifted_in (shifted_in val (sextet 4096 (packed a b c))) (sextet 64 (packed a b c)))
            2
            cs
third_byte val a b c cs ha hb hc =
    let n = packed a b c in
    decode_third (shifted_in val (sextet 4096 n)) (sextet 64 n) cs (sextet-bound 64 n)
    ∙ ap
        (λ (k : ℕ).
          k ∷ decode_from (shifted_in (shifted_in val (sextet 4096 n)) (sextet 64 n)) 2 cs)
        (byte_two val a b c ha hb hc)

fourth_byte :
    (val a b c : ℕ) (cs : Text)
    → a < 256
    → b < 256
    → c < 256
    → decode_from
        (shifted_in val (sextet 64 (packed a b c)))
        2
        (b64char (sextet 1 (packed a b c)) ∷ cs)
      ≡ c
        ∷ decode_from
            (shifted_in (shifted_in val (sextet 64 (packed a b c))) (sextet 1 (packed a b c)))
            0
            cs
fourth_byte val a b c cs ha hb hc =
    let n = packed a b c in
    decode_fourth (shifted_in val (sextet 64 n)) (sextet 1 n) cs (sextet-bound 1 n)
    ∙ ap (λ (k : ℕ). k ∷ decode_from (shifted_in (shifted_in val (sextet 64 n)) (sextet 1 n)) 0 cs)
        (byte_three val a b c ha hb hc)

-- A tail behind the groups, whatever the accumulator holds.
decode_from-encode_groups :
    (bs cs : Text) (val : ℕ)
    → AreBytes bs
    → IsTail cs
    → decode_from val 0 (encode_groups bs ++ cs) ≡ bs
unfolding encode_groups
decode_from-encode_groups [] cs val are tail = decode-tail val 0 cs tail
decode_from-encode_groups (a ∷ []) cs val are tail =
    decode_two val a 0 0 cs are.0 (omega arith) (omega arith)
    ∙ ap (λ (k : Text). a ∷ k) (decode-tail _ 4 cs tail)
decode_from-encode_groups (a ∷ b ∷ []) cs val are tail =
    decode_two val a b 0 _ are.0 are.1.0 (omega arith)
    ∙ ap (λ (k : Text). a ∷ k)
        (third_byte _ a b 0 cs are.0 are.1.0 (omega arith)
          ∙ ap (λ (k : Text). b ∷ k) (decode-tail _ 2 cs tail))
decode_from-encode_groups (a ∷ b ∷ c ∷ bs) cs val are tail =
    decode_two val a b c _ are.0 are.1.0 are.1.1.0
    ∙ ap (λ (k : Text). a ∷ k)
        (third_byte _ a b c _ are.0 are.1.0 are.1.1.0
          ∙ ap (λ (k : Text). b ∷ k)
              (fourth_byte _ a b c (encode_groups bs ++ cs) are.0 are.1.0 are.1.1.0
                ∙ ap (λ (k : Text). c ∷ k) (decode_from-encode_groups bs cs _ are.1.1.1 tail)))

back : (shift n : ℕ) → from_url (to_url (b64char (sextet shift n))) ≡ b64char (sextet shift n)
back shift n = (b64char-position (sextet shift n) (sextet-bound shift n)).2

-- The two substitutions undo each other on what was encoded.
from_url-encode_groups :
    (bs : Text) → map from_url (map to_url (encode_groups bs)) ≡ encode_groups bs
unfolding encode_groups
from_url-encode_groups [] = refl
from_url-encode_groups (a ∷ []) =
    ap₂ (λ (x y : ℕ). x ∷ y ∷ []) (back 262144 (packed a 0 0)) (back 4096 (packed a 0 0))
from_url-encode_groups (a ∷ b ∷ []) =
    ap₂ (λ (x : ℕ) (ys : Text). x ∷ ys) (back 262144 (packed a b 0))
      (ap₂ (λ (x y : ℕ). x ∷ y ∷ []) (back 4096 (packed a b 0)) (back 64 (packed a b 0)))
from_url-encode_groups (a ∷ b ∷ c ∷ bs) =
    ap₂ (λ (x : ℕ) (ys : Text). x ∷ ys) (back 262144 (packed a b c))
      (ap₂ (λ (x : ℕ) (ys : Text). x ∷ ys) (back 4096 (packed a b c))
        (ap₂ (λ (x : ℕ) (ys : Text). x ∷ ys) (back 64 (packed a b c))
          (ap₂ (λ (x : ℕ) (ys : Text). x ∷ ys) (back 1 (packed a b c))
            (from_url-encode_groups bs))))

equals_signs-IsTail : (n : ℕ) → IsTail (equals_signs n)
equals_signs-IsTail zero = ends
equals_signs-IsTail (suc n) = pads

-- Bytes that are encoded are decoded back.
pub base64url_decode-encode :
    (bs : Text) → AreBytes bs → base64url_decode (base64url_encode bs) ≡ bs
unfolding base64url_decode base64url_encode pad
base64url_decode-encode bs are =
    ap (λ (k : Text). decode_from 0 0 (pad k)) (from_url-encode_groups bs)
    ∙ decode_from-encode_groups bs _ 0 are (equals_signs-IsTail _)
