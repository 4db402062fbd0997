-- ===== src/Listing/Texts.antt =====
-- The search for a text in another one, whatever the case of the letters (`toLower` and `find` in
-- libraries/dbal/production/src/entities/page/crud/search_pages.hpp).
use dbal.Prelude.{
  ℕ, ◌+◌, ◌≤◌, ◌==◌, String, ◌≡◌, ◌⊎◌, ◌↔◌, refl, ap, arith, true, List, [], ◌∷◌, ◌++◌, map, codes,
  Bool-cases, inl, inr,
}
use dbal.Listing.{lower_code, starts_with, has_infix, contains_insensitive}

-- The same letter of "A" to "Z", in upper or in lower case, or the same byte.
abbrev pub SameLetter : ℕ → ℕ → Type 0
SameLetter a b =
    (a ≡ b) ⊎ (((65 ≤ a) × (a ≤ 90) × (b ≡ a + 32)) ⊎ ((65 ≤ b) × (b ≤ 90) × (a ≡ b + 32)))

-- Two texts that differ in the case of their letters at most.
pub data SameLetters : List ℕ → List ℕ → Type 0 where
  no_letters : SameLetters [] []
  letters :
      {x y : ℕ} {xs ys : List ℕ}
      → SameLetter x y
      → SameLetters xs ys
      → SameLetters (x ∷ xs) (y ∷ ys)

-- The text is some bytes, then the query in any case, then more bytes.
pub ContainsInsensitive : String → String → Type 0
ContainsInsensitive text query =
    (front found back : List ℕ) × (codes text ≡ front ++ (found ++ back))
    × SameLetters found (codes query)

same_of_lower : (a b : ℕ) → lower_code a ≡ lower_code b → SameLetter a b
same_of_lower a b h = ground arith

lower_of_same : (a b : ℕ) → SameLetter a b → lower_code a ≡ lower_code b
lower_of_same a b h = ground arith

equal : (a b : ℕ) → (a == b) ≡ true → a ≡ b
equal a b h = ground arith

equal_refl : (a : ℕ) → (a == a) ≡ true
equal_refl a = ground arith

Starts : List ℕ → List ℕ → Type 0
Starts xs ys = (found back : List ℕ) × (xs ≡ found ++ back) × SameLetters found ys

Starts-starts_with :
    (xs ys : List ℕ) → starts_with (map lower_code xs) (map lower_code ys) ≡ true → Starts xs ys
unfolding starts_with Starts
Starts-starts_with xs [] h = ([], xs, refl, no_letters)
Starts-starts_with [] (y ∷ ys) h = absurd (cc)
Starts-starts_with (x ∷ xs) (y ∷ ys) h = elim (Bool-cases (lower_code x == lower_code y)) [
  | inl e ↦
      let (found, back, split, same) = Starts-starts_with xs ys (rw e at h) in
      (
        x ∷ found,
        back,
        ap (λ (l : List ℕ). x ∷ l) split,
        letters (same_of_lower x y (equal (lower_code x) (lower_code y) e)) same,
      )
  | inr e ↦ absurd (cc (rw e at h))
]

starts_with_of_letters :
    {found ys : List ℕ} (back : List ℕ)
    → SameLetters found ys
    → starts_with (map lower_code (found ++ back)) (map lower_code ys) ≡ true
unfolding starts_with
starts_with_of_letters [] no_letters = refl
starts_with_of_letters (b ∷ back) no_letters = refl
starts_with_of_letters back (letters {x} {y} e es) =
    rw (lower_of_same x y e, equal_refl (lower_code y)) (starts_with_of_letters back es)

Within : List ℕ → List ℕ → Type 0
Within xs ys = (front found back : List ℕ) × (xs ≡ front ++ (found ++ back)) × SameLetters found ys

Within-has_infix :
    (xs ys : List ℕ) → has_infix (map lower_code xs) (map lower_code ys) ≡ true → Within xs ys
unfolding has_infix Within Starts
Within-has_infix [] ys h =
    let (found, back, split, same) = Starts-starts_with [] ys h in ([], found, back, split, same)
Within-has_infix (x ∷ xs) ys h =
    elim (Bool-cases (starts_with (map lower_code (x ∷ xs)) (map lower_code ys))) [
      | inl e ↦
          let (found, back, split, same) = Starts-starts_with (x ∷ xs) ys e in
          ([], found, back, split, same)
      | inr e ↦
          let (front, found, back, split, same) = Within-has_infix xs ys (rw e at h) in
          (x ∷ front, found, back, ap (λ (l : List ℕ). x ∷ l) split, same)
    ]

has_infix-starts : (xs ys : List ℕ) → starts_with xs ys ≡ true → has_infix xs ys ≡ true
unfolding has_infix
has_infix-starts [] ys h = h
has_infix-starts (x ∷ xs) ys h = rw h refl

has_infix_of_letters :
    (front : List ℕ) {found ys : List ℕ} (back : List ℕ)
    → SameLetters found ys
    → has_infix (map lower_code (front ++ (found ++ back))) (map lower_code ys) ≡ true
unfolding has_infix
has_infix_of_letters [] {found} {ys} back same =
    has_infix-starts (map lower_code (found ++ back)) (map lower_code ys)
      (starts_with_of_letters back same)
has_infix_of_letters (x ∷ front) back same = ground (arith, has_infix_of_letters front back same)

-- The search finds the query exactly where the text contains it in any case.
pub contains_insensitive-ContainsInsensitive :
    (text query : String)
    → (contains_insensitive text query ≡ true) ↔ ContainsInsensitive text query
unfolding contains_insensitive ContainsInsensitive Within
contains_insensitive-ContainsInsensitive text query = (
  λ h. Within-has_infix (codes text) (codes query) h,
  λ (front, found, back, split, same). rw split (has_infix_of_letters front back same),
)
