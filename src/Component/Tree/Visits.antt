-- ===== src/Component/Tree/Visits.antt =====
-- libraries/dbal/production/src/entities/component/crud/get_tree.hpp: what the tree of a page holds.
use dbal.Prelude.{
  ℕ, zero, suc, ◌<◌, ◌≡◌, ◌↔◌, ◌⊎◌, refl, sym, ap, ◌∙◌, subst, String, true, false, Option, none,
  some, List, [], ◌∷◌, Member, inl, inr, Bool-cases, Option-cases, str_eq, eq_iff, is_empty,
  has_value, arith,
}
use dbal.Map.{Map, lookup, contains}
use dbal.Map.Order.{IsOrdered, Above-IsOrdered, lookup-Above}
use dbal.Result.{ok}
use dbal.Types.{ComponentNode}
use dbal.Store.{InMemoryStore}
use dbal.Listing.{done, sort_by}
use dbal.Component.Descent.{Descends, is_child, is_below, IsForest}
use dbal.Component.Tree.{
  is_root, roots, collect_children, entries_at, visit_all, build_tree, tree_result, get_tree,
}
use dbal.Component.Tree.Walks.{Yields, Stored, Reaches, visit_found-Yields}

module _ (s : InMemoryStore) (page : String) where
  -- Every child in the index is stored.
  abbrev pub HasChildren : Type 0
  HasChildren =
      (parent child : String) (children : List String)
      → lookup parent s.components_by_parent ≡ some children
      → Member child children
      → Stored s.components child

  -- The component stands below the id.
  abbrev pub StandsBelow : String → ComponentNode → Type 0
  StandsBelow id n =
      (j : String) × (lookup j s.components ≡ some n) × Descends s.components_by_parent j id

  by_child :
      (id j : String) (children : List String) (n : ComponentNode)
      → lookup id s.components_by_parent ≡ some children
      → lookup j s.components ≡ some n
      → Descends s.components_by_parent j id
      → Reaches s.components StandsBelow children n
  by_child id j children n e at (is_child cs q m) =
      (j, subst (λ (l : List String). Member j l) (cc (q, e)) m, inl at)
  by_child id j children n e at (is_below x cs q m d) =
      (x, subst (λ (l : List String). Member x l) (cc (q, e)) m, inr (j, at, d))

  Reaches-StandsBelow :
      (id : String) (children : List String) (n : ComponentNode)
      → lookup id s.components_by_parent ≡ some children
      → Reaches s.components StandsBelow children n ↔ StandsBelow id n
  Reaches-StandsBelow id children n e = (
    λ (c, m, w). elim w [
      | inl at ↦ (c, at, is_child children e m)
      | inr (j, at, d) ↦ (j, at, is_below c children e m d)
    ],
    λ (j, at, d). by_child id j children n e at d,
  )

  no_child :
      (id j : String)
      → lookup id s.components_by_parent ≡ none
      → Descends s.components_by_parent j id
      → (cs : List String) × (lookup id s.components_by_parent ≡ some cs)
  no_child id j e (is_child cs q m) = (cs, q)
  no_child id j e (is_below x cs q m d) = (cs, q)

  first_entry :
      (m : Map ComponentNode) (i id : String) (node : ComponentNode)
      → i ≡ id
      → lookup id ((i, node) ∷ m) ≡ some node
  unfolding lookup
  first_entry m i id node e = ground (arith, eq_iff i id)

  later_entry :
      (m : Map ComponentNode) (i id : String) (node x : ComponentNode)
      → IsOrdered ((i, node) ∷ m)
      → lookup id m ≡ some x
      → lookup id ((i, node) ∷ m) ≡ some x
  unfolding lookup
  later_entry m i id node x v h = ground (arith, eq_iff i id, lookup-Above i m v)

  -- The roots of a page are stored on it without a parent.
  roots-is_root :
      (m : Map ComponentNode) (id : String)
      → IsOrdered m
      → Member id (roots page m)
      → (node : ComponentNode) × (lookup id m ≡ some node) × (is_root page node ≡ true)
  unfolding roots
  roots-is_root [] id v n = absurd n
  roots-is_root ((i, node) ∷ m) id v n = elim (Bool-cases (is_root page node)) [
    | inr e ↦
        let (x, at, root) = roots-is_root m id (Above-IsOrdered i m v) (rw e at n) in
        (x, later_entry m i id node x v at, root)
    | inl e ↦
        let n' = rw e at n in
        elim n' [
          | inl same ↦ (node, first_entry m i id node (sym same), e)
          | inr l ↦
              let (x, at, root) = roots-is_root m id (Above-IsOrdered i m v) l in
              (x, later_entry m i id node x v at, root)
        ]
  ]

  roots-found :
      (m : Map ComponentNode) (id : String) (x : ComponentNode)
      → lookup id m ≡ some x
      → is_root page x ≡ true
      → Member id (roots page m)
  unfolding roots lookup
  roots-found [] id x h root = absurd (cc h)
  roots-found ((i, node) ∷ m) id x h root = elim (Bool-cases (str_eq i id)) [
    | inl e ↦
        let same : node ≡ x = cc (rw e at h) in
        let here : is_root page node ≡ true =
          subst (λ (k : ComponentNode). is_root page k ≡ true) (sym same) root in
        rw here (inl (sym ((eq_iff i id).0 e)))
    | inr e ↦
        let l = roots-found m id x (rw e at h) root in
        elim (Bool-cases (is_root page node)) [ inl r ↦ rw r (inr l) | inr r ↦ rw r l ]
  ]

  -- A root of the page, or a component below one.
  abbrev pub InTree : ComponentNode → Type 0
  InTree n =
      (id : String) × (root : ComponentNode) × (lookup id s.components ≡ some root)
      × (root.page_id ≡ page)
      × (root.parent_id ≡ none)
      × ((root ≡ n) ⊎ StandsBelow id n)

  no_value : (o : Option String) → has_value o ≡ false → o ≡ none
  no_value none h = refl
  no_value (some a) h = absurd (cc h)

  is_root-fields :
      (node : ComponentNode)
      → is_root page node ≡ true
      → (node.page_id ≡ page) × (node.parent_id ≡ none)
  is_root-fields node h = elim (Bool-cases (str_eq node.page_id page)) [
    | inr e ↦ absurd (ground arith)
    | inl e ↦ elim (Bool-cases (has_value node.parent_id)) [
      | inl e2 ↦ absurd (ground arith)
      | inr e2 ↦ ((eq_iff node.page_id page).0 e, no_value node.parent_id e2)
    ]
  ]

  fields-is_root :
      (node : ComponentNode)
      → node.page_id ≡ page
      → node.parent_id ≡ none
      → is_root page node ≡ true
  fields-is_root node h none_above = rw ((eq_iff node.page_id page).1 h) (rw none_above refl)

  module _ (height : String → ℕ) (forest : IsForest s.components_by_parent height)
      (children_stored : HasChildren) where
    -- With more fuel than the height, the walk below a component ends.
    build_tree-Yields :
        (fuel : ℕ) (id : String)
        → height id < fuel
        → Yields (build_tree fuel s page (some id)) (StandsBelow id)
    unfolding build_tree collect_children entries_at visit_all sort_by
    build_tree-Yields zero id h = absurd (omega arith)
    build_tree-Yields (suc fuel) id h = elim (Option-cases (lookup id s.components_by_parent)) [
      | inl e ↦ (
        [],
        rw e refl,
        λ n. (λ m. absurd m, λ (j, at, d). absurd (cc ((no_child id j e d).1, e))),
      )
      | inr (children, e) ↦
          let (ns, q, same) =
            visit_found-Yields s.components (λ c. build_tree fuel s page (some c)) StandsBelow
              children (λ c m. children_stored id c children e m)
              (λ c m.
                let lower : height c < height id = forest id c children e m in
                build_tree-Yields fuel c (omega arith)) in
          (
            ns,
            rw e q,
            λ n.
                let (there, back) = Reaches-StandsBelow id children n e in
                (λ m. there ((same n).0 m), λ b. (same n).1 (back b)),
          )
    ]

    -- In a store whose components are in the order of their ids, whose children are stored and form no
    -- cycle, and with more fuel than all heights, the tree of a page that is stored, and
    -- whose id is not empty, has exactly the components of the page without a parent and those below
    -- them.
    pub get_tree-InTree :
        (fuel : ℕ)
        → IsOrdered s.components
        → ((id : String) → height id < fuel)
        → is_empty page ≡ false
        → contains page s.pages ≡ true
        → (tree : List ComponentNode) × (get_tree (suc fuel) s page ≡ some (done (ok tree)))
          × ((n : ComponentNode) → Member n tree ↔ InTree n)
    unfolding get_tree build_tree collect_children
    get_tree-InTree fuel v high named stored =
        let (ns, q, same) =
          visit_found-Yields s.components (λ c. build_tree fuel s page (some c)) StandsBelow
            (roots page s.components)
            (λ id m. let (node, at, root) = roots-is_root s.components id v m in (node, at))
            (λ id m. build_tree-Yields fuel id (high id)) in
        (
          ns,
          rw named (rw stored (ap tree_result q)),
          λ n. (
            λ m.
                let (id, l, w) = (same n).0 m in
                let (node, at, root) = roots-is_root s.components id v l in
                let (on, above) = is_root-fields node root in
                elim w [
                  | inl here ↦ (id, node, at, on, above, inl (cc (at, here)))
                  | inr b ↦ (id, node, at, on, above, inr b)
                ],
            λ (id, node, at, on, above, w).
                let l = roots-found s.components id node at (fields-is_root node on above) in
                elim w [
                  | inl here ↦
                      (same n).1 (id, l, inl (at ∙ ap (λ (k : ComponentNode). some k) here))
                  | inr b ↦ (same n).1 (id, l, inr b)
                ],
          ),
        )
