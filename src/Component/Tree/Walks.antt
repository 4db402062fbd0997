-- ===== src/Component/Tree/Walks.antt =====
-- libraries/dbal/production/src/entities/component/crud/get_tree.hpp: the components that a walk ends
-- with, from the walks of the children.
use dbal.Prelude.{
  ◌≡◌, ◌↔◌, ◌⊎◌, refl, sym, ap, ap₂, ◌∙◌, subst, String, some, List, [], ◌∷◌, ◌++◌, Member, inl,
  inr,
}
use dbal.Map.{Map, lookup}
use dbal.Types.{ComponentNode}
use dbal.Listing.{done, sort_by}
use dbal.Listing.Sorting.{Member-sort_by, Member-sort_by'}
use dbal.Component.Tree.{Entry, Walk, entries_at, order_lt, joined, visit_all, visit_found}

-- The walk ends with exactly the components that have the property.
abbrev pub Yields : Walk → (ComponentNode → Type 0) → Type 0
Yields w P =
    (ns : List ComponentNode) × (w ≡ some (done ns)) × ((n : ComponentNode) → Member n ns ↔ P n)

Member-append :
    (n : ComponentNode) (xs ys : List ComponentNode)
    → Member n (xs ++ ys) ↔ (Member n xs ⊎ Member n ys)
Member-append n [] ys = (λ m. inr m, λ w. elim w [ inl m ↦ absurd m | inr m ↦ m ])
Member-append n (x ∷ xs) ys =
    let (there, back) = Member-append n xs ys in
    (
      λ m. elim m [
        | inl e ↦ inl (inl e)
        | inr l ↦ elim (there l) [ inl a ↦ inl (inr a) | inr b ↦ inr b ]
      ],
      λ w. elim w [
        | inl (inl e) ↦ inl e
        | inl (inr a) ↦ inr (back (inl a))
        | inr b ↦ inr (back (inr b))
      ],
    )

-- A component, what is below it, and the rest.
joined-Yields :
    (node : ComponentNode) (a b : Walk) (P Q : ComponentNode → Type 0)
    → Yields a P
    → Yields b Q
    → Yields (joined node a b) (λ n. (n ≡ node) ⊎ (P n ⊎ Q n))
joined-Yields node a b P Q (xs, ea, ha) (ys, eb, hb) = (
  node ∷ (xs ++ ys),
  rw (ea, eb) refl,
  λ n.
      let (there, back) = Member-append n xs ys in
      (
        λ m. elim m [
          | inl e ↦ inl e
          | inr l ↦ elim (there l) [
            | inl x ↦ inr (inl ((ha n).0 x))
            | inr y ↦ inr (inr ((hb n).0 y))
          ]
        ],
        λ w. elim w [
          | inl e ↦ inl e
          | inr (inl x) ↦ inr (back (inl ((ha n).1 x)))
          | inr (inr y) ↦ inr (back (inr ((hb n).1 y)))
        ],
      ),
)

-- One of the entries, or below one.
AtOrBelow : (String → ComponentNode → Type 0) → List Entry → ComponentNode → Type 0
AtOrBelow below es n = (e : Entry) × Member e es × ((n ≡ e.1) ⊎ below e.0 n)

visit_all-Yields :
    (deeper : String → Walk) (below : String → ComponentNode → Type 0) (es : List Entry)
    → ((e : Entry) → Member e es → Yields (deeper e.0) (below e.0))
    → Yields (visit_all deeper es) (AtOrBelow below es)
unfolding visit_all AtOrBelow
visit_all-Yields deeper below [] h = ([], refl, λ n. (λ m. absurd m, λ (e, m, w). absurd m))
visit_all-Yields deeper below ((id, node) ∷ es) h =
    let rest = visit_all-Yields deeper below es (λ e m. h e (inr m)) in
    let (ns, e, same) =
      joined-Yields node (deeper id) (visit_all deeper es) (below id) (AtOrBelow below es)
        (h (id, node) (inl refl)) rest in
    (
      ns,
      e,
      λ n. (
        λ m. elim ((same n).0 m) [
          | inl at ↦ ((id, node), inl refl, inl at)
          | inr (inl b) ↦ ((id, node), inl refl, inr b)
          | inr (inr (f, mf, w)) ↦ (f, inr mf, w)
        ],
        λ (f, mf, w). elim mf [
          | inl first ↦ elim w [
            | inl at ↦ (same n).1 (inl (at ∙ ap (λ (k : Entry). k.1) first))
            | inr b ↦ (same n).1 (inr (inl (subst (λ (k : Entry). below k.0 n) first b)))
          ]
          | inr later ↦ (same n).1 (inr (inr (f, later, w)))
        ],
      ),
    )

abbrev entry : String → ComponentNode → Entry
entry id node = (id, node)

abbrev pub Stored : Map ComponentNode → String → Type 0
Stored m id = (node : ComponentNode) × (lookup id m ≡ some node)

-- Ids that are stored have entries.
entries_at-Stored :
    (m : Map ComponentNode) (ids : List String)
    → ((id : String) → Member id ids → Stored m id)
    → (es : List Entry) × (entries_at m ids ≡ some es)
      × ((e : Entry) → Member e es ↔ (Member e.0 ids × (lookup e.0 m ≡ some e.1)))
unfolding entries_at
entries_at-Stored m [] h = ([], refl, λ e. (λ n. absurd n, λ w. absurd w.0))
entries_at-Stored m (id ∷ ids) h =
    let (es, q, same) = entries_at-Stored m ids (λ i n. h i (inr n)) in
    let (node, found) = h id (inl refl) in
    (
      (id, node) ∷ es,
      rw (found, q) refl,
      λ e. (
        λ n. elim n [
          | inl first ↦ (
            inl (ap (λ (k : Entry). k.0) first),
            subst (λ (k : Entry). lookup k.0 m ≡ some k.1) (sym first) found,
          )
          | inr later ↦ let (a, b) = (same e).0 later in (inr a, b)
        ],
        λ (n, at). elim n [
          | inl first ↦
              let here : lookup e.0 m ≡ some node = ap (λ (k : String). lookup k m) first ∙ found in
              let value : e.1 ≡ node = cc (at, here) in inl (ap₂ entry first value)
          | inr later ↦ inr ((same e).1 (later, at))
        ],
      ),
    )

-- The component of an id, or one below it.
abbrev pub Reaches :
    Map ComponentNode → (String → ComponentNode → Type 0) → List String → ComponentNode → Type 0
Reaches m below ids n = (id : String) × Member id ids × ((lookup id m ≡ some n) ⊎ below id n)

pub visit_found-Yields :
    (m : Map ComponentNode) (deeper : String → Walk) (below : String → ComponentNode → Type 0)
    (ids : List String)
    → ((id : String) → Member id ids → Stored m id)
    → ((id : String) → Member id ids → Yields (deeper id) (below id))
    → Yields (visit_found deeper (entries_at m ids)) (Reaches m below ids)
unfolding AtOrBelow
visit_found-Yields m deeper below ids stored h =
    let (es, q, same) = entries_at-Stored m ids stored in
    let sorted = sort_by order_lt es in
    let (ns, e, in_ns) =
      visit_all-Yields deeper below sorted
        (λ k mk. h k.0 ((same k).0 (Member-sort_by order_lt k es mk)).0) in
    (
      ns,
      rw q e,
      λ n. (
        λ mn.
            let (k, mk, w) = (in_ns n).0 mn in
            let (listed, at) = (same k).0 (Member-sort_by order_lt k es mk) in
            elim w [
              | inl is ↦ (k.0, listed, inl (at ∙ ap (λ (x : ComponentNode). some x) (sym is)))
              | inr b ↦ (k.0, listed, inr b)
            ],
        λ (id, listed, w).
            let (node, found) = stored id listed in
            let k = entry id node in
            let mk = Member-sort_by' order_lt k es ((same k).1 (listed, found)) in
            elim w [
              | inl at ↦ (in_ns n).1 (k, mk, inl (cc (at, found)))
              | inr b ↦ (in_ns n).1 (k, mk, inr b)
            ],
      ),
    )
