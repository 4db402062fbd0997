-- ===== src/Component/Delete/Severs.antt =====
-- What stays of the index of the children under `cascadeDeleteComponent` of
-- libraries/dbal/production/src/entities/component/helpers.hpp.
use dbal.Prelude.{
  String, ◌≡◌, ◌⊎◌, refl, sym, ◌∙◌, false, none, some, List, [], ◌∷◌, Member, subst, inl, inr,
  Bool-cases, Option-cases, str_eq, eq_iff,
}
use dbal.Map.{Map, lookup, lookup-insert, lookup-erase}
use dbal.Types.{ComponentNode}
use dbal.Store.{InMemoryStore}
use dbal.Component.{remove_all, remove_entry}
use dbal.Component.Descent.{Descends, is_child, is_below}
use dbal.Component.Delete.Shrinks.{Subtree, list_cases}

-- `child` is an entry of `parent`.
abbrev pub Edge : Map (List String) → String → String → Type 0
Edge by_parent parent child =
    (children : List String) × (lookup parent by_parent ≡ some children) × Member child children

-- Each component that has children is stored.
abbrev pub Linked : InMemoryStore → Type 0
Linked s =
    (parent child : String)
    → Edge s.components_by_parent parent child
    → (a : ComponentNode) × (lookup parent s.components ≡ some a)

-- The component and all below it in `s` are gone in `t`.
abbrev pub AllGone : InMemoryStore → String → InMemoryStore → Type 0
AllGone s id t = (j : String) → Subtree s.components_by_parent id j → lookup j t.components ≡ none

-- What is gone in `s` is gone in `t`.
abbrev pub StaysGone : InMemoryStore → InMemoryStore → Type 0
StaysGone s t = (j : String) → lookup j s.components ≡ none → lookup j t.components ≡ none

-- An entry of the index of `s` is one of `t`, or its component is gone with all below it.
abbrev pub Severs : InMemoryStore → InMemoryStore → Type 0
Severs s t =
    (parent child : String)
    → Edge s.components_by_parent parent child
    → Edge t.components_by_parent parent child ⊎ AllGone s child t

module _ (s t : InMemoryStore) (h : Severs s t) where
  Descends-Severs :
      (j id : String)
      → Descends s.components_by_parent j id
      → Subtree t.components_by_parent id j ⊎ (lookup j t.components ≡ none)
  Descends-Severs j id (is_child children e m) = elim (h id j (children, e, m)) [
    | inl (ds, f, n) ↦ inl (inr (is_child ds f n))
    | inr gone ↦ inr (gone j (inl refl))
  ]
  Descends-Severs j id (is_below x children e m d) = elim (h id x (children, e, m)) [
    | inl (ds, f, n) ↦ elim (Descends-Severs j x d) [
      | inl (inl same) ↦ inl (inr (is_child ds f (subst (λ y. Member y ds) (sym same) n)))
      | inl (inr below) ↦ inl (inr (is_below x ds f n below))
      | inr gone ↦ inr gone
    ]
    | inr gone ↦ inr (gone j (inr d))
  ]

  -- What stood below a component still does, or is gone.
  pub Subtree-Severs :
      (j id : String)
      → Subtree s.components_by_parent id j
      → Subtree t.components_by_parent id j ⊎ (lookup j t.components ≡ none)
  Subtree-Severs j id (inl same) = inl (inl same)
  Subtree-Severs j id (inr d) = Descends-Severs j id d

pub AllGone-Severs :
    (s t u : InMemoryStore) (id : String)
    → Severs s t
    → StaysGone t u
    → AllGone t id u
    → AllGone s id u
AllGone-Severs s t u id h stays gone j w = elim (Subtree-Severs s t h j id w) [
  | inl below ↦ gone j below
  | inr e ↦ stays j e
]

pub Severs-trans : (s t u : InMemoryStore) → StaysGone t u → Severs s t → Severs t u → Severs s u
Severs-trans s t u stays h k parent child edge = elim (h parent child edge) [
  | inl there ↦ elim (k parent child there) [
    | inl still ↦ inl still
    | inr gone ↦ inr (AllGone-Severs s t u child h stays gone)
  ]
  | inr gone ↦ inr (λ j w. stays j (gone j w))
]

Member-remove_all' :
    (id c : String) (is : List String)
    → str_eq c id ≡ false
    → Member c is
    → Member c (remove_all id is)
unfolding remove_all
Member-remove_all' id c [] n m = m
Member-remove_all' id c (i ∷ is) n (inl same) =
    let apart : str_eq i id ≡ false = subst (λ y. str_eq y id ≡ false) same n in rw apart (inl same)
Member-remove_all' id c (i ∷ is) n (inr m) = elim (Bool-cases (str_eq i id)) [
  | inl e ↦ rw e (Member-remove_all' id c is n m)
  | inr e ↦ rw e (inr (Member-remove_all' id c is n m))
]

pub entries_alike :
    (m : Map (List String)) {key parent : String} {xs ys : List String}
    → key ≡ parent
    → lookup key m ≡ some xs
    → lookup parent m ≡ some ys
    → xs ≡ ys
entries_alike m same f e = cc

-- An entry of another child stays.
pub Edge-remove_entry :
    (key id parent child : String) (m : Map (List String))
    → str_eq child id ≡ false
    → Edge m parent child
    → Edge (remove_entry key id m) parent child
unfolding remove_entry
Edge-remove_entry key id parent child m n (children, e, mem) = elim (Option-cases (lookup key m)) [
  | inl f ↦ rw (f, remove_entry) (children, e, mem)
  | inr (entries, f) ↦ elim (Bool-cases (str_eq key parent)) [
    | inl hit ↦
        let same : key ≡ parent = (eq_iff key parent).0 hit in
        let alike : entries ≡ children = entries_alike m same f e in
        let kept = Member-remove_all' id child entries n (subst (Member child) (sym alike) mem) in
        elim (list_cases (remove_all id entries)) [
          | inl g ↦ absurd (subst (Member child) g kept)
          | inr (j, js, g) ↦
              rw (f, g, remove_entry)
                (
                  j ∷ js,
                  lookup-insert key parent (j ∷ js) m ∙ rw hit refl,
                  subst (Member child) g kept,
                )
        ]
    | inr miss ↦ elim (list_cases (remove_all id entries)) [
      | inl g ↦ rw (f, g, remove_entry) (children, lookup-erase key parent m ∙ rw miss e, mem)
      | inr (j, js, g) ↦
          rw (f, g, remove_entry) (children, lookup-insert key parent (j ∷ js) m ∙ rw miss e, mem)
    ]
  ]
]
