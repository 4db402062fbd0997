-- ===== src/Oidc/Client/Rows.antt =====
-- libraries/dbal/production/src/oidc/tokens: the rows that a list finds before and after an update.
use dbal.Prelude.{
  ◌++◌, ℕ, zero, suc, ◌≡◌, refl, ap, Bool, true, List, [], ◌∷◌, map, arith, length, take, Member,
  inl, inr, Bool-cases,
}
use dbal.Listing.{filter_list}

module _ {A : Type 0} where
  pub filter-map :
      (p : A → Bool) (f : A → A) (xs : List A)
      → ((x : A) → p (f x) ≡ p x)
      → filter_list p (map f xs) ≡ map f (filter_list p xs)
  unfolding filter_list
  filter-map p f [] h = refl
  filter-map p f (x ∷ xs) h = elim (Bool-cases (p x)) [
    | inl e ↦ rw (h x) (rw e (ap (λ (ys : List A). f x ∷ ys) (filter-map p f xs h)))
    | inr e ↦ rw (h x) (rw e (filter-map p f xs h))
  ]

  pub length-map : (f : A → A) (xs : List A) → length (map f xs) ≡ length xs
  length-map f [] = refl
  length-map f (x ∷ xs) = omega (arith, length-map f xs)

  pub Member-map :
      (f : A → A) (y : A) (xs : List A) → Member y (map f xs) → (x : A) × Member x xs × (y ≡ f x)
  Member-map f y [] h = absurd h
  Member-map f y (x ∷ xs) (inl e) = (x, inl refl, e)
  Member-map f y (x ∷ xs) (inr m) = let (z, mz, e) = Member-map f y xs m in (z, inr mz, e)

  pub take-map : (n : ℕ) (f : A → A) (xs : List A) → take n (map f xs) ≡ map f (take n xs)
  take-map zero f xs = refl
  take-map (suc n) f [] = refl
  take-map (suc n) f (x ∷ xs) = ap (λ (ys : List A). f x ∷ ys) (take-map n f xs)

  pub map_fuse : (f g : A → A) (xs : List A) → map f (map g xs) ≡ map (λ x. f (g x)) xs
  map_fuse f g [] = refl
  map_fuse f g (x ∷ xs) = ap (λ (ys : List A). f (g x) ∷ ys) (map_fuse f g xs)

  pub map_same : (f : A → A) (xs : List A) → ((x : A) → f x ≡ x) → map f xs ≡ xs
  map_same f [] h = refl
  map_same f (x ∷ xs) h = rw (h x) (ap (λ (ys : List A). x ∷ ys) (map_same f xs h))

  pub map_agree : (f g : A → A) (xs : List A) → ((x : A) → f x ≡ g x) → map f xs ≡ map g xs
  map_agree f g [] h = refl
  map_agree f g (x ∷ xs) h = rw (h x) (ap (λ (ys : List A). g x ∷ ys) (map_agree f g xs h))

  -- A row that was added, where no other one passes the filter.
  pub filter-append_one :
      (p : A → Bool) (xs : List A) (x : A)
      → filter_list p xs ≡ []
      → p x ≡ true
      → filter_list p (xs ++ x ∷ []) ≡ x ∷ []
  unfolding filter_list
  filter-append_one p [] x none_pass h = rw h refl
  filter-append_one p (y ∷ xs) x none_pass h = elim (Bool-cases (p y)) [
    | inl e ↦ absurd (ground arith)
    | inr e ↦ rw e (filter-append_one p xs x (rw e at none_pass) h)
  ]

  pub Member-append_one : (xs : List A) (x : A) → Member x (xs ++ x ∷ [])
  Member-append_one [] x = inl refl
  Member-append_one (y ∷ xs) x = inr (Member-append_one xs x)
