-- ===== src/Oidc/Pkce.antt =====
-- libraries/dbal/production/src/oidc/pkce/pkce.hpp and src/security/crypto/timing_safe_equal.hpp:
-- the check of a PKCE code verifier. A text is the list of its bytes.
use Prim.Native.Nat.{bit_or, bit_xor}
use dbal.Prelude.{
  ℕ, ◌≡◌, refl, ap, ◌∙◌, Bool, true, false, [], ◌∷◌, ◌&&◌, ◌||◌, not, leb, ltb, ◌==◌, ==_iff,
  if◌then◌else◌, length, arith, Bool-cases, inl, inr,
}
use dbal.Prelude.Bits.{bit_xor-zero, bit_or-zero, bit_xor_self, zero-bit_or}
use dbal.Bql.Lexer.{Text}

-- The character classes of the two patterns.
abbrev pub is_alnum : ℕ → Bool
is_alnum c = (leb 48 c && leb c 57) || (leb 65 c && leb c 90) || (leb 97 c && leb c 122)

abbrev pub is_verifier_char : ℕ → Bool
is_verifier_char c = is_alnum c || c == 45 || c == 46 || c == 95 || c == 126

abbrev pub is_challenge_char : ℕ → Bool
is_challenge_char c = is_alnum c || c == 45 || c == 95

-- `std::regex_match` of a text with one class under `+`, for a text that is not empty.
unfoldable pub all_bytes : (ℕ → Bool) → Text → Bool
all_bytes p [] = true
all_bytes p (c ∷ cs) = p c && all_bytes p cs

unfoldable pub is_valid_code_verifier_format : Text → Bool
unfolding all_bytes
is_valid_code_verifier_format verifier =
    if ltb (length verifier) 43 || ltb 128 (length verifier)
    then false
    else all_bytes is_verifier_char verifier

unfoldable pub is_valid_code_challenge_format : Text → Bool
unfolding all_bytes
is_valid_code_challenge_format challenge =
    if ltb (length challenge) 43 || ltb 128 (length challenge)
    then false
    else all_bytes is_challenge_char challenge

-- The loop over the bytes of two texts of one length, from the bits that differ so far.
unfoldable pub differences : ℕ → Text → Text → ℕ
differences result (a ∷ s) (b ∷ t) = differences (bit_or result (bit_xor a b)) s t
differences result s t = result

unfoldable pub timing_safe_equal : Text → Text → Bool
unfolding differences
timing_safe_equal a b = if not (length a == length b) then false else differences 0 a b == 0

-- `derive` is `deriveS256Challenge`, base64url of SHA-256.
unfoldable pub verify_s256 : (Text → Text) → Text → Text → Bool
unfolding is_valid_code_verifier_format timing_safe_equal
verify_s256 derive verifier stored =
    if not (is_valid_code_verifier_format verifier)
    then false
    else timing_safe_equal (derive verifier) stored

differences-zero :
    (result : ℕ) (s t : Text)
    → length s ≡ length t
    → differences result s t ≡ 0
    → (result ≡ 0) × (s ≡ t)
unfolding differences
differences-zero result [] [] same h = (h, refl)
differences-zero result [] (b ∷ t) same h = absurd (omega arith)
differences-zero result (a ∷ s) [] same h = absurd (omega arith)
differences-zero result (a ∷ s) (b ∷ t) same h =
    let (first, rest) = differences-zero (bit_or result (bit_xor a b)) s t (omega arith) h in
    let (none_yet, equal) = bit_or-zero result (bit_xor a b) first in
    (none_yet, ap (λ (k : ℕ). k ∷ s) (bit_xor-zero a b equal) ∙ ap (λ (k : Text). b ∷ k) rest)

differences_self : (s : Text) → differences 0 s s ≡ 0
unfolding differences
differences_self [] = refl
differences_self (a ∷ s) =
    ap (λ (k : ℕ). differences k s s) (ap (bit_or 0) (bit_xor_self a) ∙ zero-bit_or 0)
    ∙ differences_self s

-- The comparison in constant time is equality.
pub timing_safe_equal-eq : (a b : Text) → timing_safe_equal a b ≡ true → a ≡ b
unfolding timing_safe_equal
timing_safe_equal-eq a b h = elim (Bool-cases (length a == length b)) [
  | inr e ↦ absurd (ground arith)
  | inl e ↦
      let same : length a ≡ length b = (==_iff (length a) (length b)).0 e in
      let h' = rw e at h in (differences-zero 0 a b same ((==_iff (differences 0 a b) 0).0 h')).1
]

pub timing_safe_equal_refl : (a : Text) → timing_safe_equal a a ≡ true
unfolding timing_safe_equal
timing_safe_equal_refl a =
    let same : (length a == length a) ≡ true = (==_iff (length a) (length a)).1 refl in
    rw same ((==_iff (differences 0 a a) 0).1 (differences_self a))

-- A verifier that passes is well formed and derives the stored challenge.
pub verify_s256-true :
    (derive : Text → Text) (verifier stored : Text)
    → verify_s256 derive verifier stored ≡ true
    → (is_valid_code_verifier_format verifier ≡ true) × (derive verifier ≡ stored)
unfolding verify_s256
verify_s256-true derive verifier stored h =
    elim (Bool-cases (is_valid_code_verifier_format verifier)) [
      | inr e ↦ absurd (ground arith)
      | inl e ↦ (e, timing_safe_equal-eq (derive verifier) stored (rw e at h))
    ]
