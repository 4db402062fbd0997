-- ===== src/Listing/Sorting.antt =====
-- The filters and the sort of libraries/dbal/production/src/entities/*/crud/list_*.hpp.
use mathlib.Core.List.{Perm}
use mathlib.Core.List.Perm
use dbal.Prelude.{
  suc, ◌≤◌, length, ◌≡◌, refl, Bool, true, false, List, [], ◌∷◌, inl, inr, ◌↔◌, ◌⊎◌, Member,
  Bool-cases, arith,
}
use dbal.Listing.{filter_list, insert_by, sort_by}

module _ {A : Type 0} where
  -- A filter keeps the items that pass, and no others.
  pub Member-filter_list :
      (p : A → Bool) (a : A) (xs : List A)
      → Member a (filter_list p xs) ↔ (Member a xs × (p a ≡ true))
  unfolding filter_list
  Member-filter_list p a [] = (λ h. absurd h, λ h. h.0)
  Member-filter_list p a (x ∷ xs) = elim (Bool-cases (p x)) [
    | inl e ↦ rw e (
      elim [
        | inl q ↦ (inl q, rw q e)
        | inr m ↦ let r = (Member-filter_list p a xs).0 m in (inr r.0, r.1)
      ],
      λ h. elim h.0 [ inl q ↦ inl q | inr m ↦ inr ((Member-filter_list p a xs).1 (m, h.1)) ],
    )
    | inr e ↦ rw e (
      λ m. let r = (Member-filter_list p a xs).0 m in (inr r.0, r.1),
      λ h. elim h.0 [
        | inl q ↦ absurd (cc (h.1, e, q))
        | inr m ↦ (Member-filter_list p a xs).1 (m, h.1)
      ],
    )
  ]

  module _ (less : A → A → Bool) where
    insert_by-perm : (x : A) (xs : List A) → Perm (insert_by less x xs) (x ∷ xs)
    unfolding insert_by
    insert_by-perm x [] = Perm.refl _
    insert_by-perm x (y ∷ ys) = elim (Bool-cases (less y x)) [
      | inl e ↦ rw e (Perm.trans (Perm.cons y (insert_by-perm x ys)) (Perm.swap x y ys))
      | inr e ↦ rw e (Perm.refl _)
    ]

    -- Sorting loses nothing and makes nothing up.
    pub sort_by-perm : (xs : List A) → Perm (sort_by less xs) xs
    unfolding sort_by
    sort_by-perm [] = Perm.refl _
    sort_by-perm (x ∷ xs) =
        Perm.trans (insert_by-perm x (sort_by less xs)) (Perm.cons x (sort_by-perm xs))

    -- No item is less than the one before it.
    abbrev pub IsSorted : List A → Type 0
    IsSorted [] = Unit
    IsSorted (x ∷ []) = Unit
    IsSorted (x ∷ y ∷ ys) = (less y x ≡ false) × IsSorted (y ∷ ys)

    module _ (asym : (a b : A) → less a b ≡ true → less b a ≡ false) where
      insert_by-IsSorted : (x : A) (xs : List A) → IsSorted xs → IsSorted (insert_by less x xs)
      unfolding insert_by
      insert_by-IsSorted x [] h = tt
      insert_by-IsSorted x (y ∷ []) h = elim (Bool-cases (less y x)) [
        | inl e ↦ rw e (asym y x e, tt)
        | inr e ↦ rw e (e, tt)
      ]
      insert_by-IsSorted x (y ∷ z ∷ zs) h = elim (Bool-cases (less y x)) [
        | inl e ↦ rw e (chain x y z zs (asym y x e) h (insert_by-IsSorted x (z ∷ zs) h.1))
        | inr e ↦ rw e (e, h)
      ]
        where
          chain :
              (x y z : A) (zs : List A)
              → less x y ≡ false
              → IsSorted (y ∷ z ∷ zs)
              → IsSorted (insert_by less x (z ∷ zs))
              → IsSorted (y ∷ insert_by less x (z ∷ zs))
          chain x y z zs q h r = elim (Bool-cases (less z x)) [
            | inl e ↦ rw e (h.0, rw e at r)
            | inr e ↦ rw e (q, rw e at r)
          ]

      pub sort_by-IsSorted : (xs : List A) → IsSorted (sort_by less xs)
      unfolding sort_by
      sort_by-IsSorted [] = tt
      sort_by-IsSorted (x ∷ xs) = insert_by-IsSorted x (sort_by less xs) (sort_by-IsSorted xs)

    Member-insert_by :
        (a x : A) (xs : List A) → Member a (insert_by less x xs) → (a ≡ x) ⊎ Member a xs
    unfolding insert_by
    Member-insert_by a x [] m = m
    Member-insert_by a x (y ∷ ys) m = elim (Bool-cases (less y x)) [
      | inl e ↦ elim (rw e at m) [
        | inl q ↦ inr (inl q)
        | inr r ↦ elim (Member-insert_by a x ys r) [ inl q ↦ inl q | inr t ↦ inr (inr t) ]
      ]
      | inr e ↦ rw e at m
    ]

    pub Member-sort_by : (a : A) (xs : List A) → Member a (sort_by less xs) → Member a xs
    unfolding sort_by
    Member-sort_by a [] m = m
    Member-sort_by a (x ∷ xs) m = elim (Member-insert_by a x (sort_by less xs) m) [
      | inl q ↦ inl q
      | inr r ↦ inr (Member-sort_by a xs r)
    ]

    Member-insert_by' :
        (a x : A) (xs : List A) → (a ≡ x) ⊎ Member a xs → Member a (insert_by less x xs)
    unfolding insert_by
    Member-insert_by' a x [] m = m
    Member-insert_by' a x (y ∷ ys) m = elim (Bool-cases (less y x)) [
      | inl e ↦ rw e (elim m [
        | inl q ↦ inr (Member-insert_by' a x ys (inl q))
        | inr (inl q) ↦ inl q
        | inr (inr t) ↦ inr (Member-insert_by' a x ys (inr t))
      ])
      | inr e ↦ rw e m
    ]

    pub Member-sort_by' : (a : A) (xs : List A) → Member a xs → Member a (sort_by less xs)
    unfolding sort_by
    Member-sort_by' a [] m = m
    Member-sort_by' a (x ∷ xs) (inl q) = Member-insert_by' a x (sort_by less xs) (inl q)
    Member-sort_by' a (x ∷ xs) (inr m) =
        Member-insert_by' a x (sort_by less xs) (inr (Member-sort_by' a xs m))

    length-insert_by : (x : A) (xs : List A) → length (insert_by less x xs) ≡ suc (length xs)
    unfolding insert_by
    length-insert_by x [] = refl
    length-insert_by x (y ∷ ys) = ground (arith, length-insert_by x ys)

    pub length-sort_by : (xs : List A) → length (sort_by less xs) ≡ length xs
    unfolding sort_by
    length-sort_by [] = refl
    length-sort_by (x ∷ xs) = omega (arith, length-insert_by x (sort_by less xs), length-sort_by xs)

  pub length-filter_list : (p : A → Bool) (xs : List A) → length (filter_list p xs) ≤ length xs
  unfolding filter_list
  length-filter_list p [] = omega arith
  length-filter_list p (x ∷ xs) = ground (arith, length-filter_list p xs)
