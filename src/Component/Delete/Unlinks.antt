-- ===== src/Component/Delete/Unlinks.antt =====
-- The deletion of one component without children in `cascadeDeleteComponent` of
-- libraries/dbal/production/src/entities/component/helpers.hpp, and what follows for the whole.
use dbal.Prelude.{
  String, ◌≡◌, refl, sym, ◌∙◌, false, none, some, List, Member, subst, inl, inr, Bool-cases,
  Option-cases, str_eq, eq_iff, eq_refl,
}
use dbal.Map.{lookup, lookup-erase}
use dbal.Types.{ComponentNode}
use dbal.Store.{InMemoryStore}
use dbal.Component.Descent.{Descends, is_child, is_below}
use dbal.Component.Delete.{unlink, forget_children}
use dbal.Component.Delete.Shrinks.{Shrinks, erase-Shrinks, remove_entry-Shrinks}
use dbal.Component.Delete.Severs.{
  Edge, Linked, AllGone, StaysGone, Severs, Edge-remove_entry, entries_alike,
}

module _ (s : InMemoryStore) (id : String) (a : ComponentNode) where
  pub unlink-gone : lookup id (unlink s id a).components ≡ none
  unfolding unlink
  unlink-gone = lookup-erase id id s.components ∙ rw (eq_refl id) refl

  pub unlink-StaysGone : StaysGone s (unlink s id a)
  unfolding unlink
  unlink-StaysGone j e = elim (Bool-cases (str_eq id j)) [
    | inl hit ↦ lookup-erase id j s.components ∙ rw hit refl
    | inr miss ↦ lookup-erase id j s.components ∙ rw miss e
  ]

  pub unlink-Shrinks : Shrinks s.components_by_parent (unlink s id a).components_by_parent
  unfolding unlink
  unlink-Shrinks = elim (Option-cases a.parent_id) [
    | inl e ↦ rw e (λ p c cs f m. (cs, f, m))
    | inr (parent, e) ↦ rw e (remove_entry-Shrinks parent id s.components_by_parent)
  ]

  Edge-unlink :
      (parent child : String)
      → str_eq child id ≡ false
      → Edge s.components_by_parent parent child
      → Edge (unlink s id a).components_by_parent parent child
  unfolding unlink
  Edge-unlink parent child n edge = elim (Option-cases a.parent_id) [
    | inl e ↦ rw e edge
    | inr (p, e) ↦ rw e (Edge-remove_entry p id parent child s.components_by_parent n edge)
  ]

  module _ (leaf : lookup id s.components_by_parent ≡ none) where
    pub unlink-AllGone : AllGone s id (unlink s id a)
    unlink-AllGone j (inl same) =
        subst (λ y. lookup y (unlink s id a).components ≡ none) (sym same) unlink-gone
    unlink-AllGone j (inr (is_child cs e m)) = absurd (cc (leaf, e))
    unlink-AllGone j (inr (is_below x cs e m d)) = absurd (cc (leaf, e))

    pub unlink-Severs : Severs s (unlink s id a)
    unlink-Severs parent child edge = elim (Bool-cases (str_eq child id)) [
      | inl hit ↦
          inr (
            subst (λ y. AllGone s y (unlink s id a)) (sym ((eq_iff child id).0 hit)) unlink-AllGone)
      | inr miss ↦ inl (Edge-unlink parent child miss edge)
    ]

    pub unlink-Linked : Linked s → Linked (unlink s id a)
    unfolding unlink
    unlink-Linked linked parent child (cs, e, m) =
        let (ds, f, n) = unlink-Shrinks parent child cs e m in
        let (b, there) = linked parent child (ds, f, n) in
        elim (Bool-cases (str_eq id parent)) [
          | inl hit ↦
              let same : id ≡ parent = (eq_iff id parent).0 hit in absurd (cc (leaf, f, same))
          | inr miss ↦ (b, lookup-erase id parent s.components ∙ rw miss there)
        ]

-- The children of `id` are gone in `t` with all below them; then the entry of `id` is erased.
module _ (s t : InMemoryStore) (id : String) (children : List String)
    (entry : lookup id s.components_by_parent ≡ some children)
    (gone : (x : String) → Member x children → AllGone s x t) where
  pub below_gone :
      (j : String) → Descends s.components_by_parent j id → lookup j t.components ≡ none
  below_gone j (is_child cs e m) =
      let alike : cs ≡ children = entries_alike s.components_by_parent refl e entry in
      gone j (subst (Member j) alike m) j (inl refl)
  below_gone j (is_below x cs e m d) =
      let alike : cs ≡ children = entries_alike s.components_by_parent refl e entry in
      gone x (subst (Member x) alike m) j (inr d)

  pub forget_children-Severs : Severs s t → Severs s (forget_children t id)
  forget_children-Severs h parent child (cs, e, m) = elim (h parent child (cs, e, m)) [
    | inl (ds, f, n) ↦ elim (Bool-cases (str_eq id parent)) [
      | inl hit ↦
          let alike : cs ≡ children =
            entries_alike s.components_by_parent (sym ((eq_iff id parent).0 hit)) e entry in
          inr (gone child (subst (Member child) alike m))
      | inr miss ↦ inl (ds, lookup-erase id parent t.components_by_parent ∙ rw miss f, n)
    ]
    | inr all ↦ inr all
  ]

pub forget_children-Linked :
    (t : InMemoryStore) (id : String) → Linked t → Linked (forget_children t id)
forget_children-Linked t id linked parent child (cs, e, m) =
    let (ds, f, n) = erase-Shrinks id t.components_by_parent parent child cs e m in
    linked parent child (ds, f, n)
