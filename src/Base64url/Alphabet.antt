-- ===== src/Base64url/Alphabet.antt =====
-- libraries/dbal/production/src/security/jwt/base64url.hpp: the 64 characters.
use dbal.Prelude.{
  ℕ, zero, suc, ◌<◌, ◌≡◌, refl, ap, Bool, true, false, not, ◌&&◌, Option, none, some, ◌==◌, ==_iff,
  arith,
}
use dbal.Base64url.{b64char, position, to_url, from_url}

-- What is true of each number below a bound is found by evaluation.
all_below : ℕ → (ℕ → Bool) → Bool
all_below zero p = true
all_below (suc n) p = p n && all_below n p

all_below-true : (n : ℕ) (p : ℕ → Bool) (x : ℕ) → all_below n p ≡ true → x < n → p x ≡ true
unfolding all_below
all_below-true zero p x h lt = absurd (omega arith)
all_below-true (suc n) p x h lt = ground (arith, all_below-true n p x)

is_position : ℕ → Option ℕ → Bool
is_position n none = false
is_position n (some m) = m == n

is_char : ℕ → Bool
unfolding is_position
is_char n =
    is_position n (position (b64char n))
    && not (b64char n == 61)
    && from_url (to_url (b64char n)) == b64char n

table : all_below 64 is_char ≡ true
unfolding all_below is_char is_position position b64char
table = refl

both-true : (a b c : Bool) → (a && b && c) ≡ true → (a ≡ true) × (b ≡ true) × (c ≡ true)
both-true a b c h = ground arith

is_position-some : (n : ℕ) (o : Option ℕ) → is_position n o ≡ true → o ≡ some n
unfolding is_position
is_position-some n none h = absurd (cc h)
is_position-some n (some m) h = ap (λ (k : ℕ). some k) ((==_iff m n).0 h)

-- Each character is found where it stands, is no '=', and comes back from the other alphabet.
pub b64char-position :
    (n : ℕ)
    → n < 64
    → (position (b64char n) ≡ some n)
      × ((b64char n == 61) ≡ false)
      × (from_url (to_url (b64char n)) ≡ b64char n)
unfolding is_char
b64char-position n h =
    let (at, other, back) = both-true _ _ _ (all_below-true 64 is_char n table h) in
    (is_position-some n _ at, ground arith, (==_iff _ _).0 back)
