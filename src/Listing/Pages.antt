-- ===== src/Listing/Pages.antt =====
-- The pages of a list (the end of libraries/dbal/production/src/entities/*/crud/list_*.hpp).
use native.Mathlib.Nat.{zero-mul, suc-mul}
use dbal.Prelude.{
  ℕ, zero, suc, ◌+◌, ◌-◌, ◌*◌, ◌%◌, ◌≤◌, ◌<◌, ◌≡◌, refl, ap, ◌∙◌, List, [], ◌∷◌, ◌++◌, take, drop,
  length, length-drop, arith, Bool-cases, inl, inr, ltb, leb, true, false, min, lt→ltb, ltb→lt,
}
use dbal.Prelude.Int.{ℤ, pos, pos-suc-sub-one, pos-mul-pos, pos-add-pos, pos-lt-pos, min-pos-pos}
use dbal.Store.Ids.{int_end}
use dbal.Listing.{Outcome, done, range, int_of, paginate}

min-suc : (m n : ℕ) → min (suc m) (suc n) ≡ suc (min m n)
min-suc m n = omega arith

not_lt : (a b : ℕ) → ltb a b ≡ false → b ≤ a
not_lt a b h = ground arith

pub int_of_lem : (n : ℕ) → n < int_end → int_of n ≡ pos n
unfolding int_of
int_of_lem n h = let low : n % (2 * int_end) ≡ n = omega arith in rw (low, lt→ltb n int_end h) refl

module _ {A : Type 0} where
  pub take_all : (n : ℕ) (xs : List A) → length xs ≤ n → take n xs ≡ xs
  take_all zero [] h = refl
  take_all zero (x ∷ xs) h = absurd (omega arith)
  take_all (suc n) [] h = refl
  take_all (suc n) (x ∷ xs) h = ap (◌∷◌ x) (take_all n xs (omega arith))

  drop_all : (n : ℕ) (xs : List A) → length xs ≤ n → drop n xs ≡ []
  drop_all zero [] h = refl
  drop_all zero (x ∷ xs) h = absurd (omega arith)
  drop_all (suc n) [] h = refl
  drop_all (suc n) (x ∷ xs) h = drop_all n xs (omega arith)

  nil_cases : (m n : ℕ) → take {A = A} m [] ≡ take {A = A} n []
  nil_cases zero zero = refl
  nil_cases zero (suc n) = refl
  nil_cases (suc m) zero = refl
  nil_cases (suc m) (suc n) = refl

  take-take-drop : (m n : ℕ) (xs : List A) → take m xs ++ take n (drop m xs) ≡ take (m + n) xs
  take-take-drop zero n xs = let e : n ≡ 0 + n = omega arith in ap (λ k. take k xs) e
  take-take-drop (suc m) n [] = nil_cases n (suc m + n)
  take-take-drop (suc m) n (x ∷ xs) =
      let e : suc (m + n) ≡ suc m + n = omega arith in
      ap (◌∷◌ x) (take-take-drop m n xs) ∙ ap (λ k. take k (x ∷ xs)) e

  take-min : (n : ℕ) (xs : List A) → take (min n (length xs)) xs ≡ take n xs
  take-min zero xs = let e : min 0 (length xs) ≡ 0 = omega arith in ap (λ k. take k xs) e
  take-min (suc n) [] = nil_cases (min (suc n) 0) (suc n)
  take-min (suc n) (x ∷ xs) =
      ap (λ k. take k (x ∷ xs)) (min-suc n (length xs)) ∙ ap (◌∷◌ x) (take-min n xs)

  take_nil : (n : ℕ) → take {A = A} n [] ≡ []
  take_nil zero = refl
  take_nil (suc n) = refl

  range-page :
      (start limit : ℕ) (xs : List A)
      → start < length xs
      → range (pos start) (pos (min (start + limit) (length xs))) xs
        ≡ done (take limit (drop start xs))
  unfolding range
  range-page start limit xs h =
      let c : leb start (min (start + limit) (length xs)) ≡ true = ground arith in
      let e : min (start + limit) (length xs) - start ≡ min limit (length (drop start xs)) =
        omega (arith, length-drop start xs) in
      rw (c, e, take-min limit (drop start xs)) refl

  -- A page whose number is 1 or more, with a limit that is not negative and an end that `int` holds, as
  -- it holds the number of the items:
  -- the items from `(page - 1) * limit` on, `limit` of them or as many as there are.
  pub paginate_lem :
      (p limit : ℕ) (xs : List A)
      → p < int_end
      → p * limit + limit < int_end
      → length xs < int_end
      → paginate (pos (suc p)) (pos limit) xs ≡ done (take limit (drop (p * limit) xs))
  unfolding paginate
  paginate_lem p limit xs h k fits =
      rw
        (
          pos-suc-sub-one p,
          pos-mul-pos p limit,
          pos-add-pos (p * limit) limit,
          int_of_lem (length xs) fits,
          pos-lt-pos (p * limit) (length xs),
          min-pos-pos (p * limit + limit) (length xs),
          lt→ltb p int_end h,
          lt→ltb (p * limit) int_end (omega arith),
          lt→ltb (p * limit + limit) int_end k,
        )
        (elim (Bool-cases (ltb (p * limit) (length xs))) [
          | inl e ↦ rw (e, range-page (p * limit) limit xs (ltb→lt _ _ e)) refl
          | inr e ↦ rw (e, drop_all (p * limit) xs (not_lt _ _ e), take_nil limit) refl
        ])

  -- A first page that is large enough is the whole list.
  pub paginate_all :
      (page limit : ℤ) (n : ℕ) (xs : List A)
      → page ≡ pos 1
      → limit ≡ pos n
      → n < int_end
      → length xs ≤ n
      → paginate page limit xs ≡ done xs
  paginate_all page limit n xs first bound small enough =
      let start : 0 * n ≡ 0 = zero-mul n in
      rw (first, bound)
        (paginate_lem 0 n xs (omega arith) (omega (arith, start)) (omega arith)
          ∙ rw (start, take_all n xs enough) refl)

  -- What a client reads that asks for the pages from 1 to `n`.
  abbrev pub items : Outcome (List A) → List A
  items (done xs) = xs
  items other = []

  unfoldable pub first_pages : ℕ → ℤ → List A → List A
  first_pages zero limit xs = []
  first_pages (suc n) limit xs = first_pages n limit xs ++ items (paginate (pos (suc n)) limit xs)

  -- The pages from 1 to `n` of a list, put together, are its first `n * limit` items in their order:
  -- no page repeats or leaves out an item. The limit is not negative, and `int` holds `n`,
  -- `n * limit` and the length of the list.
  pub first_pages-take :
      (n limit : ℕ) (xs : List A)
      → n < int_end
      → n * limit < int_end
      → length xs < int_end
      → first_pages n (pos limit) xs ≡ take (n * limit) xs
  unfolding first_pages
  first_pages-take zero limit xs h k fits =
      let e : 0 ≡ 0 * limit = omega arith in ap (λ m. take m xs) e
  first_pages-take (suc n) limit xs h k fits =
      let e : n * limit + limit ≡ suc n * limit = omega (arith, suc-mul n limit) in
      rw
        (
          first_pages-take n limit xs (omega arith) (omega arith) fits,
          paginate_lem n limit xs (omega arith) (omega arith) fits,
        )
        (take-take-drop (n * limit) limit xs ∙ ap (λ m. take m xs) e)
