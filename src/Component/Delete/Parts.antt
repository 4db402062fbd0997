-- ===== src/Component/Delete/Parts.antt =====
-- What `cascadeDeleteComponent` of
-- libraries/dbal/production/src/entities/component/helpers.hpp takes out of the store.
use dbal.Prelude.{
  ℕ, zero, suc, ◌<◌, String, ◌≡◌, ◌⊎◌, refl, sym, subst, ◌∙◌, true, false, Option, none, some, List,
  [], ◌∷◌, arith, Member, inl, inr, Bool-cases, Option-cases, str_eq, eq_iff, eq_refl, is_empty,
}
use dbal.Map.{lookup, lookup-erase}
use dbal.Result.{ok}
use dbal.Types.{ComponentNode}
use dbal.Store.{InMemoryStore}
use dbal.Component.Descent.{IsForest}
use dbal.Component.Delete.Shrinks.{
  Shrinks, erase-Shrinks, IsForest-Shrinks, Subtree, Subtree-Shrinks, Subtrees, Subtrees-Subtree,
}
use dbal.Component.Descent.{is_child, is_below}
use dbal.Component.Delete.Severs.{Linked, AllGone, StaysGone, Severs, AllGone-Severs, Severs-trans}
use dbal.Component.Delete.Unlinks.{
  unlink-gone, unlink-StaysGone, unlink-Shrinks, unlink-AllGone, unlink-Severs, unlink-Linked,
  below_gone, forget_children-Severs, forget_children-Linked,
}
use dbal.Component.Delete.{unlink, forget_children, cascade_all, cascade, remove}

-- `t` is `s` without some of the components in `gone` and some entries of the children.
pub record IsPart (s t : InMemoryStore) (gone : String → Type 0) : Type 0 where
  pub components :
      (j : String)
      → (gone j × (lookup j t.components ≡ none)) ⊎ (lookup j t.components ≡ lookup j s.components)
  pub shrinks : Shrinks s.components_by_parent t.components_by_parent

IsPart-refl : (s : InMemoryStore) (gone : String → Type 0) → IsPart s s gone
IsPart-refl s gone = record { components = λ j. inr refl; shrinks = λ p c cs e m. (cs, e, m) }

IsPart-trans :
    (s t u : InMemoryStore) (first last all : String → Type 0)
    → ((j : String) → first j → all j)
    → ((j : String) → last j → all j)
    → IsPart s t first
    → IsPart t u last
    → IsPart s u all
IsPart-trans s t u first last all h k a b = record {
  components = λ j. elim (b.components j) [
    | inl (g, e) ↦ inl (k j g, e)
    | inr e ↦ elim (a.components j) [ inl (g, f) ↦ inl (h j g, e ∙ f) | inr f ↦ inr (e ∙ f) ]
  ];
  shrinks = λ p c cs e m. let (ds, f, n) = b.shrinks p c cs e m in a.shrinks p c ds f n;
}

unlink-IsPart :
    (s : InMemoryStore) (id : String) (a : ComponentNode) → IsPart s (unlink s id a) (λ j. j ≡ id)
unfolding unlink
unlink-IsPart s id a = record {
  components = λ j. elim (Bool-cases (str_eq id j)) [
    | inl e ↦ inl (sym ((eq_iff id j).0 e), lookup-erase id j s.components ∙ rw e refl)
    | inr e ↦ inr (lookup-erase id j s.components ∙ rw e refl)
  ];
  shrinks = unlink-Shrinks s id a;
}

forget_children-IsPart :
    (s : InMemoryStore) (id : String) (gone : String → Type 0)
    → IsPart s (forget_children s id) gone
forget_children-IsPart s id gone = record {
  components = λ j. inr refl;
  shrinks = erase-Shrinks id s.components_by_parent;
}

StaysGone-IsPart : (s t : InMemoryStore) (gone : String → Type 0) → IsPart s t gone → StaysGone s t
StaysGone-IsPart s t gone part j e = elim (part.components j) [ inl (g, f) ↦ f | inr f ↦ f ∙ e ]

-- How one call ends: with the component and all below it gone, and nothing else.
abbrev IsCut : InMemoryStore → String → Option InMemoryStore → Type 0
IsCut s id o =
    (t : InMemoryStore) × (o ≡ some t)
    × IsPart s t (Subtree s.components_by_parent id)
    × AllGone s id t
    × Severs s t
    × Linked t

abbrev AreCut : InMemoryStore → List String → Option InMemoryStore → Type 0
AreCut s ids o =
    (t : InMemoryStore) × (o ≡ some t)
    × IsPart s t (Subtrees s.components_by_parent ids)
    × ((x : String) → Member x ids → AllGone s x t)
    × Severs s t
    × Linked t

cascade_all-AreCut :
    (height : String → ℕ) (one : InMemoryStore → String → Option InMemoryStore) (s : InMemoryStore)
    (ids : List String)
    → IsForest s.components_by_parent height
    → Linked s
    → ((t : InMemoryStore) (id : String)
        → IsForest t.components_by_parent height
        → Linked t
        → Member id ids
        → IsCut t id (one t id))
    → AreCut s ids (cascade_all one s ids)
unfolding cascade_all
cascade_all-AreCut height one s [] f l h =
    (s, refl, IsPart-refl s _, (λ x m. absurd m), (λ p c e. inl e), l)
cascade_all-AreCut height one s (id ∷ ids) f l h =
    let (t, e, part, gone, severs, linked) = h s id f l (inl refl) in
    let (u, e', part', gone', severs', linked') =
      cascade_all-AreCut height one t ids (IsForest-Shrinks _ _ height f part.shrinks) linked
        (λ v j g k m. h v j g k (inr m)) in
    let stays = StaysGone-IsPart t u _ part' in
    (
      u,
      rw (e, cascade_all) e',
      IsPart-trans s t u _ _ (Subtrees s.components_by_parent (id ∷ ids)) (λ j g. (id, inl refl, g))
          (λ j (x, m, g). (x, inr m, Subtree-Shrinks _ _ x j part.shrinks g)) part part',
      λ x m. elim m [
        | inl same ↦ subst (λ y. AllGone s y u) (sym same) (λ j w. stays j (gone j w))
        | inr n ↦ AllGone-Severs s t u x severs stays (gone' x n)
      ],
      Severs-trans s t u stays severs severs',
      linked',
    )

absent-AllGone :
    (s : InMemoryStore) (id : String) → Linked s → lookup id s.components ≡ none → AllGone s id s
absent-AllGone s id l e j (inl same) = subst (λ y. lookup y s.components ≡ none) (sym same) e
absent-AllGone s id l e j (inr (is_child cs f m)) =
    let (a, g) = l id j (cs, f, m) in absurd (cc (e, g))
absent-AllGone s id l e j (inr (is_below x cs f m d)) =
    let (a, g) = l id x (cs, f, m) in absurd (cc (e, g))

-- The component itself, after its children.
parent-IsCut :
    (s t : InMemoryStore) (id : String) (a : ComponentNode) (children : List String)
    → lookup id s.components_by_parent ≡ some children
    → IsPart s t (Subtrees s.components_by_parent children)
    → ((x : String) → Member x children → AllGone s x t)
    → Severs s t
    → Linked t
    → IsCut s id (some (unlink (forget_children t id) id a))
parent-IsCut s t id a children g part gone severs linked =
    let last = forget_children t id in
    let leaf : lookup id last.components_by_parent ≡ none =
      lookup-erase id id t.components_by_parent ∙ rw (eq_refl id) refl in
    let stays = unlink-StaysGone last id a in
    (
      unlink last id a,
      refl,
      IsPart-trans s t (unlink last id a) (Subtrees s.components_by_parent children) (λ j. j ≡ id)
          (Subtree s.components_by_parent id)
          (λ j w. Subtrees-Subtree s.components_by_parent id children j g w) (λ j w. inl w) part
          (IsPart-trans t last (unlink last id a) (λ j. j ≡ id) (λ j. j ≡ id) (λ j. j ≡ id)
            (λ j w. w) (λ j w. w) (forget_children-IsPart t id (λ j. j ≡ id))
            (unlink-IsPart last id a)),
      λ j w. elim w [
        | inl same ↦
            subst (λ y. lookup y (unlink last id a).components ≡ none) (sym same)
              (unlink-gone last id a)
        | inr d ↦ stays j (below_gone s t id children g gone j d)
      ],
      Severs-trans s last (unlink last id a) stays
          (forget_children-Severs s t id children g gone severs) (unlink-Severs last id a leaf),
      unlink-Linked last id a leaf (forget_children-Linked t id linked),
    )

cascade-IsCut :
    (height : String → ℕ) (fuel : ℕ) (s : InMemoryStore) (id : String)
    → IsForest s.components_by_parent height
    → Linked s
    → height id < fuel
    → IsCut s id (cascade fuel s id)
unfolding cascade
cascade-IsCut height zero s id f l h = absurd (omega arith)
cascade-IsCut height (suc fuel) s id f l h = elim (Option-cases (lookup id s.components)) [
  | inl e ↦ (s, rw (e, cascade) refl, IsPart-refl s _, absent-AllGone s id l e, (λ p c w. inl w), l)
  | inr (a, e) ↦ elim (Option-cases (lookup id s.components_by_parent)) [
    | inl g ↦ (
      unlink s id a,
      rw (e, g, cascade) refl,
      IsPart-trans s s _ (λ j. j ≡ id) _ _ (λ j q. inl q) (λ j q. inl q) (IsPart-refl s _)
          (unlink-IsPart s id a),
      unlink-AllGone s id a g,
      unlink-Severs s id a g,
      unlink-Linked s id a g l,
    )
    | inr (children, g) ↦
        let deep : (t : InMemoryStore) (j : String)
            → IsForest t.components_by_parent height
            → Linked t
            → Member j children
            → IsCut t j (cascade fuel t j) =
          λ t j forest linked m.
            let lower : height j < height id = f id j children g m in
            cascade-IsCut height fuel t j forest linked (omega arith) in
        let (t, q, part, gone, severs, linked) =
          cascade_all-AreCut height (λ t j. cascade fuel t j) s children f l deep in
        rw (e, g, q, cascade) (parent-IsCut s t id a children g part gone severs linked)
  ]
]

-- In a store whose children form no cycle, where each component with children is stored, and with
-- more fuel than the height of the component, the deletion of a component that exists, and whose id is
-- not empty, ends and succeeds. The component and all below it are gone, and each other one is as it
-- was.
pub remove-IsPart :
    (height : String → ℕ) (fuel : ℕ) (s : InMemoryStore) (id : String) (a : ComponentNode)
    → IsForest s.components_by_parent height
    → Linked s
    → height id < fuel
    → is_empty id ≡ false
    → lookup id s.components ≡ some a
    → (t : InMemoryStore) × (remove fuel s id ≡ some (ok true, t))
      × IsPart s t (Subtree s.components_by_parent id)
      × AllGone s id t
unfolding remove
remove-IsPart height fuel s id a f l h p e =
    let (t, q, part, gone, severs, linked) = cascade-IsCut height fuel s id f l h in
    (t, rw (p, e, q) refl, part, gone)
