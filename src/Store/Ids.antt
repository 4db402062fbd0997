-- ===== src/Store/Ids.antt =====
-- `generateId` of libraries/dbal/production/src/store/in_memory_store.hpp: `"%s_%08d"`.
use Prim.Native.Char.{Char, code}
use text.Mathlib.TextLemmas.{append_cancel_left, cons-append, nil-append, cons-ne-nil}
use native.Mathlib.Nat.{pow-suc}
use dbal.Prelude.{
  ℕ, zero, suc, ◌+◌, ◌-◌, ◌*◌, ◌/◌, ◌%◌, ◌^◌, ◌<◌, String, ◌<>◌, ◌≡◌, refl, sym, ap, ◌∙◌, ltb,
  if◌then◌else◌, ◌==◌, false, Bool-cases, inl, inr, tests, is_empty, eq_iff, ◌≢◌, Bool, true, leb,
  ◌≤◌, arith,
}

-- The first value that a C++ `int` does not hold.
abbrev pub int_end : ℕ
int_end = 2 ^ 31

digit : ℕ → Char
digit d =
    if d == 0
    then "0"
    else if d == 1
    then "1"
    else if d == 2
    then "2"
    else if d == 3
    then "3"
    else if d == 4
    then "4"
    else if d == 5
    then "5"
    else if d == 6
    then "6"
    else if d == 7
    then "7"
    else if d == 8
    then "8"
    else "9"

-- `w` digits, the last first.
digits : ℕ → ℕ → String → String
unfolding digit
digits zero n rest = rest
digits (suc w) n rest = digits w (n / 10) (String.◌∷◌ (digit (n % 10)) rest)

-- How many digits `%08d` prints of an `int` that is not negative.
width : ℕ → ℕ
width n = if ltb n 100000000 then 8 else if ltb n 1000000000 then 9 else 10

-- What `snprintf` writes into a buffer with room for `n` bytes before the end of the text.
truncated : ℕ → String → String
truncated zero s = ""
truncated (suc n) String.[] = ""
truncated (suc n) (String.◌∷◌ c s) = String.◌∷◌ c (truncated n s)

-- The buffer has 64 bytes, the last of them for the end.
unfoldable pub generate_id : String → ℕ → String
unfolding digits width truncated
generate_id prefix n = truncated 63 (prefix <> ("_" <> digits (width n) n ""))

size : String → ℕ
size String.[] = 0
size (String.◌∷◌ c s) = suc (size s)

-- The buffer holds the prefix with any `int` behind it.
unfoldable pub fits_buffer : String → Bool
unfolding size
fits_buffer prefix = leb (size prefix) 52

truncated_lem : (n : ℕ) (s : String) → size s ≤ n → truncated n s ≡ s
unfolding truncated size
truncated_lem zero String.[] h = refl
truncated_lem zero (String.◌∷◌ c s) h = absurd (omega arith)
truncated_lem (suc n) String.[] h = refl
truncated_lem (suc n) (String.◌∷◌ c s) h = ap (String.◌∷◌ c) (truncated_lem n s (omega arith))

size-append : (s t : String) → size (s <> t) ≡ size s + size t
unfolding size
size-append String.[] t = ap size (nil-append t) ∙ omega arith
size-append (String.◌∷◌ c s) t = ap size (cons-append c s t) ∙ omega (arith, size-append s t)

size-digits : (w n : ℕ) (rest : String) → size (digits w n rest) ≡ w + size rest
unfolding size digits
size-digits zero n rest = omega arith
size-digits (suc w) n rest = size-digits w (n / 10) (String.◌∷◌ (digit (n % 10)) rest) ∙ omega arith

width_bound : (n : ℕ) → width n ≤ 10
unfolding width
width_bound n = ground arith

-- A prefix that fits is written whole, with all digits.
generate_id_lem :
    (prefix : String) (n : ℕ)
    → fits_buffer prefix ≡ true
    → generate_id prefix n ≡ prefix <> ("_" <> digits (width n) n "")
unfolding generate_id fits_buffer size
generate_id_lem prefix n h =
    let first = size-append prefix ("_" <> digits (width n) n "") in
    let bar = size-append "_" (digits (width n) n "") in
    let rest = size-digits (width n) n "" in
    let small = width_bound n in
    let short : size prefix ≤ 52 = ground arith in
    truncated_lem 63 (prefix <> ("_" <> digits (width n) n "")) (omega arith)

-- The number that digits spell, after `a`.
read : ℕ → String → ℕ
read a String.[] = a
read a (String.◌∷◌ c s) = read (a * 10 + (code c - 48)) s

code-digit : (d : ℕ) → d < 10 → code (digit d) - 48 ≡ d
unfolding digit
code-digit zero h = refl
code-digit (suc zero) h = refl
code-digit (suc (suc zero)) h = refl
code-digit (suc (suc (suc zero))) h = refl
code-digit (suc (suc (suc (suc zero)))) h = refl
code-digit (suc (suc (suc (suc (suc zero))))) h = refl
code-digit (suc (suc (suc (suc (suc (suc zero)))))) h = refl
code-digit (suc (suc (suc (suc (suc (suc (suc zero))))))) h = refl
code-digit (suc (suc (suc (suc (suc (suc (suc (suc zero)))))))) h = refl
code-digit (suc (suc (suc (suc (suc (suc (suc (suc (suc zero))))))))) h = refl
code-digit (suc (suc (suc (suc (suc (suc (suc (suc (suc (suc n)))))))))) h = absurd (omega arith)

read-digits : (w n : ℕ) (rest : String) → n < 10 ^ w → read 0 (digits w n rest) ≡ read n rest
unfolding read digits
read-digits zero n rest h = ap (λ k. read k rest) (omega arith)
read-digits (suc w) n rest h =
    let small : n < 10 ^ w * 10 = rw (← pow-suc 10 w) h in
    read-digits w (n / 10) (String.◌∷◌ (digit (n % 10)) rest) (omega arith)
    ∙ ap (λ k. read k rest) (omega (arith, code-digit (n % 10) (omega arith)))

read-width : (n : ℕ) → n < int_end → read 0 (digits (width n) n "") ≡ n
unfolding width read
read-width n h = elim (Bool-cases (ltb n 100000000)) [
  | inl a ↦ rw a (read-digits 8 n "" (omega tests))
  | inr a ↦ elim (Bool-cases (ltb n 1000000000)) [
    | inl b ↦ rw (a, b) (read-digits 9 n "" (omega tests))
    | inr b ↦ rw (a, b) (read-digits 10 n "" (omega tests))
  ]
]

-- Ids with one prefix of at most 52 bytes, which the buffer holds with any `int` behind it, are
-- distinct as long as the counter is an `int`.
pub generate_id-injective :
    (prefix : String) (m n : ℕ)
    → fits_buffer prefix ≡ true
    → m < int_end
    → n < int_end
    → generate_id prefix m ≡ generate_id prefix n
    → m ≡ n
generate_id-injective prefix m n short hm hn e =
    let same = sym (generate_id_lem prefix m short) ∙ e ∙ generate_id_lem prefix n short in
    sym (read-width m hm)
    ∙ ap (read 0) (append_cancel_left "_" _ _ (append_cancel_left prefix _ _ same))
    ∙ read-width n hn

generate_id_test : generate_id "session" 42 ≡ "session_00000042"
unfolding generate_id
generate_id_test = refl

-- No id of the program is the empty text.
pub generate_id-not-empty :
    (prefix : String) (n : ℕ) → prefix ≢ "" → is_empty (generate_id prefix n) ≡ false
unfolding generate_id
generate_id-not-empty String.[] n h = absurd (h refl)
generate_id-not-empty (String.◌∷◌ c p) n h =
    elim (Bool-cases (is_empty (generate_id (String.◌∷◌ c p) n))) [
      | inl e ↦ absurd (
          cons-ne-nil c _ (
            sym (ap (truncated 63) (cons-append c p _))
            ∙ (eq_iff (generate_id (String.◌∷◌ c p) n) "").0 e))
      | inr e ↦ e
    ]
