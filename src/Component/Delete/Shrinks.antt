-- ===== src/Component/Delete/Shrinks.antt =====
-- The index of the children under the deletions of
-- libraries/dbal/production/src/entities/component/helpers.hpp.
use dbal.Prelude.{
  ℕ, String, ◌≡◌, ◌⊎◌, refl, sym, ◌∙◌, some, List, [], ◌∷◌, arith, Member, subst, inl, inr,
  Bool-cases, Option-cases, str_eq, eq_iff,
}
use dbal.Map.{Map, lookup, insert, erase, lookup-insert, lookup-erase}
use dbal.Component.{remove_all, remove_entry}
use dbal.Component.Descent.{IsForest, Descends, is_child, is_below}

-- The entries of the index `new` are among those of `old`.
abbrev pub Shrinks : Map (List String) → Map (List String) → Type 0
Shrinks old new =
    (parent child : String) (children : List String)
    → lookup parent new ≡ some children
    → Member child children
    → (more : List String) × (lookup parent old ≡ some more) × Member child more

Member-remove_all : (id c : String) (is : List String) → Member c (remove_all id is) → Member c is
unfolding remove_all
Member-remove_all id c [] m = m
Member-remove_all id c (i ∷ is) m = elim (Bool-cases (str_eq i id)) [
  | inl e ↦ inr (Member-remove_all id c is (rw e at m))
  | inr e ↦ elim (rw e at m) [ inl q ↦ inl q | inr r ↦ inr (Member-remove_all id c is r) ]
]

pub list_cases :
    (is : List String) → (is ≡ []) ⊎ ((j : String) × (js : List String) × (is ≡ j ∷ js))
list_cases [] = inl refl
list_cases (j ∷ js) = inr (j, js, refl)

pub erase-Shrinks : (id : String) (m : Map (List String)) → Shrinks m (erase id m)
erase-Shrinks id m parent child children e n =
    (children, ground (arith, lookup-erase id parent m), n)

pub remove_entry-Shrinks :
    (key id : String) (m : Map (List String)) → Shrinks m (remove_entry key id m)
unfolding remove_entry
remove_entry-Shrinks key id m parent child children e n = elim (Option-cases (lookup key m)) [
  | inl f ↦ (children, rw (f, remove_entry) at e, n)
  | inr (entries, f) ↦ elim (list_cases (remove_all id entries)) [
    | inl g ↦ erase-Shrinks key m parent child children (rw (f, g, remove_entry) at e) n
    | inr (j, js, g) ↦
        let e' : lookup parent (insert key (j ∷ js) m) ≡ some children =
          rw (f, g, remove_entry) at e in
        elim (Bool-cases (str_eq key parent)) [
          | inl hit ↦
              let same : j ∷ js ≡ children = ground (arith, lookup-insert key parent (j ∷ js) m) in
              (
                entries,
                rw (← (eq_iff key parent).0 hit) f,
                Member-remove_all id child entries (subst (Member child) (sym (g ∙ same)) n),
              )
          | inr miss ↦ (children, ground (arith, lookup-insert key parent (j ∷ js) m), n)
        ]
  ]
]

-- A smaller index is a forest with the same heights, and what descends in it descended before.
pub IsForest-Shrinks :
    (old new : Map (List String)) (height : String → ℕ)
    → IsForest old height
    → Shrinks old new
    → IsForest new height
IsForest-Shrinks old new height f h parent child children e m =
    let (more, g, n) = h parent child children e m in f parent child more g n

Descends-Shrinks :
    (old new : Map (List String)) (candidate ancestor : String)
    → Shrinks old new
    → Descends new candidate ancestor
    → Descends old candidate ancestor
Descends-Shrinks old new candidate ancestor h (is_child children e m) =
    let (more, g, n) = h ancestor candidate children e m in is_child more g n
Descends-Shrinks old new candidate ancestor h (is_below x children e m d) =
    let (more, g, n) = h ancestor x children e m in
    is_below x more g n (Descends-Shrinks old new candidate x h d)

-- A component and all below it.
abbrev pub Subtree : Map (List String) → String → String → Type 0
Subtree by_parent id j = (j ≡ id) ⊎ Descends by_parent j id

pub Subtree-Shrinks :
    (old new : Map (List String)) (id j : String)
    → Shrinks old new
    → Subtree new id j
    → Subtree old id j
Subtree-Shrinks old new id j h (inl e) = inl e
Subtree-Shrinks old new id j h (inr d) = inr (Descends-Shrinks old new j id h d)

abbrev pub Subtrees : Map (List String) → List String → String → Type 0
Subtrees by_parent ids j = (id : String) × Member id ids × Subtree by_parent id j

-- The subtrees of the children are in the subtree of their parent.
pub Subtrees-Subtree :
    (by_parent : Map (List String)) (id : String) (children : List String) (j : String)
    → lookup id by_parent ≡ some children
    → Subtrees by_parent children j
    → Subtree by_parent id j
Subtrees-Subtree by_parent id children j e (x, m, inl same) =
    inr (is_child children e (subst (λ y. Member y children) (sym same) m))
Subtrees-Subtree by_parent id children j e (x, m, inr d) = inr (is_below x children e m d)
