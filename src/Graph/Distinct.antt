-- ===== src/Graph/Distinct.antt =====
-- libraries/dbal/production/src/workflow/wf_graph_order.cpp: lists of keys without repetition.
use Prim.{Unit}
use dbal.Prelude.{
  suc, ◌≤◌, ◌≡◌, refl, ◌∙◌, String, true, false, ◌||◌, List, [], ◌∷◌, ◌++◌, length, str_eq, eq_iff,
  eq_refl, if◌then◌else◌, arith, Bool-cases, ◌⊎◌, inl, inr,
}
use dbal.Prelude.Texts.{holds}

abbrev pub IsDistinct : List String → Type 0
IsDistinct [] = Unit
IsDistinct (x ∷ xs) = (holds x xs ≡ false) × IsDistinct xs

pub holds-append :
    (z : String) (xs ys : List String) → holds z (xs ++ ys) ≡ (holds z xs || holds z ys)
unfolding holds
holds-append z [] ys = refl
holds-append z (x ∷ xs) ys = ground (arith, holds-append z xs ys)

pub holds-one : (z x : String) → holds z (x ∷ []) ≡ str_eq x z
unfolding holds
holds-one z x = ground arith

pub holds-append_one :
    (z x : String) (xs : List String)
    → holds z (xs ++ x ∷ []) ≡ true
    → (holds z xs ≡ true) ⊎ (x ≡ z)
holds-append_one z x xs h =
    let h' = rw (holds-append z xs (x ∷ []), holds-one z x) at h in
    elim (Bool-cases (holds z xs)) [ inl e ↦ inl e | inr e ↦ inr ((eq_iff x z).0 (rw e at h')) ]

pub append_one-holds :
    (z x : String) (xs : List String) → holds z xs ≡ true → holds z (xs ++ x ∷ []) ≡ true
append_one-holds z x xs h = holds-append z xs (x ∷ []) ∙ rw h refl

pub append_one-holds_self : (x : String) (xs : List String) → holds x (xs ++ x ∷ []) ≡ true
append_one-holds_self x xs =
    holds-append x xs (x ∷ []) ∙ rw (holds-one x x, eq_refl x) (ground arith)

-- One more key behind distinct ones.
pub IsDistinct-append_one :
    (xs : List String) (x : String) → IsDistinct xs → holds x xs ≡ false → IsDistinct (xs ++ x ∷ [])
unfolding holds
IsDistinct-append_one [] x d h = (refl, d)
IsDistinct-append_one (y ∷ xs) x d h = (
  holds-append y xs (x ∷ []) ∙ ground (arith, eq_iff x y, eq_iff y x, holds-one y x),
  IsDistinct-append_one xs x d.1 (ground arith),
)

remove : String → List String → List String
remove x [] = []
remove x (y ∷ ys) = let rest = remove x ys in if str_eq y x then ys else y ∷ rest

length-remove :
    (x : String) (ys : List String) → holds x ys ≡ true → suc (length (remove x ys)) ≡ length ys
unfolding holds remove
length-remove x [] h = absurd (cc h)
length-remove x (y ∷ ys) h = elim (Bool-cases (str_eq y x)) [
  | inl e ↦ rw e refl
  | inr e ↦ rw e (omega (arith, length-remove x ys (rw e at h)))
]

holds-remove :
    (z x : String) (ys : List String)
    → holds z ys ≡ true
    → str_eq x z ≡ false
    → holds z (remove x ys) ≡ true
unfolding holds remove
holds-remove z x [] h n = h
holds-remove z x (y ∷ ys) h n = elim (Bool-cases (str_eq y x)) [
  | inl e ↦ rw e (ground (arith, eq_iff y x, eq_iff y z, eq_iff x z))
  | inr e ↦ rw e (ground (arith, holds-remove z x ys))
]

-- Distinct keys that stand in a list are no more than it is long.
pub IsDistinct-length :
    (xs ys : List String)
    → IsDistinct xs
    → ((z : String) → holds z xs ≡ true → holds z ys ≡ true)
    → length xs ≤ length ys
unfolding holds
IsDistinct-length [] ys d inside = omega arith
IsDistinct-length (x ∷ xs) ys d inside =
    let one = length-remove x ys (inside x (rw (eq_refl x) refl)) in
    let rest = IsDistinct-length xs (remove x ys) d.1 (λ z h. elim (Bool-cases (str_eq x z)) [
      | inl e ↦ absurd (ground (arith, eq_iff x z))
      | inr e ↦ holds-remove z x ys (inside z (ground arith)) e
    ]) in
    omega arith

-- As many distinct keys as the list is long are all of it.
pub IsDistinct-all :
    (xs ys : List String)
    → IsDistinct xs
    → ((z : String) → holds z xs ≡ true → holds z ys ≡ true)
    → length ys ≤ length xs
    → (z : String) → holds z ys ≡ true
    → holds z xs ≡ true
unfolding holds
IsDistinct-all xs ys d inside long z h = elim (Bool-cases (holds z xs)) [
  | inl e ↦ e
  | inr e ↦
      let more =
        IsDistinct-length (z ∷ xs) ys (e, d)
          (λ k hk. elim (Bool-cases (str_eq z k)) [
            | inl same ↦ ground (arith, eq_iff z k)
            | inr other ↦ inside k (ground arith)
          ]) in
      absurd (omega arith)
]
