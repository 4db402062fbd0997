-- ===== src/Component/Reorder.antt =====
-- `reorder` of libraries/dbal/production/src/entities/component/crud/reorder_components.hpp.
use dbal.Prelude.{
  String, ◌≡◌, refl, ◌∙◌, Bool, true, false, Option, none, some, List, [], ◌∷◌, arith, Member, inl,
  inr, Bool-cases, Option-cases, str_eq, eq_iff, is_empty, if◌then◌else◌, value_or,
}
use dbal.Prelude.Int.{ℤ, pos, ltb_ℤ}
use dbal.Map.{Map, lookup, lookup-insert}
use dbal.Result.{ok}
use dbal.Types.{ComponentNode, ComponentOrderUpdate}
use dbal.Store.{InMemoryStore}
use dbal.Component.{check_order, same_parent, set_order, set_orders, reorder}

-- The order that a component has after the updates: the last one for its id, or its own.
abbrev pub final_order : List ComponentOrderUpdate → String → ℤ → ℤ
final_order [] id order = order
final_order (u ∷ us) id order = final_order us id (if str_eq u.id id then u.order else order)

abbrev pub ordered :
    List ComponentOrderUpdate → String → Option ComponentNode → Option ComponentNode
ordered us id none = none
ordered us id (some a) = some (record a { order = final_order us id a.order })

lookup-set_order :
    (m : Map ComponentNode) (u : ComponentOrderUpdate) (id : String)
    → lookup id (set_order m u) ≡ ordered (u ∷ []) id (lookup id m)
unfolding set_order
lookup-set_order m u id = elim (Option-cases (lookup u.id m)) [
  | inl e ↦
      rw (e, set_order)
        (elim (Option-cases (lookup id m)) [
          | inl f ↦ rw f refl
          | inr (a, f) ↦ elim (Bool-cases (str_eq u.id id)) [
            | inl hit ↦ absurd (cc (e, f, (eq_iff u.id id).0 hit))
            | inr miss ↦ rw (f, miss) refl
          ]
        ])
  | inr (a, e) ↦
      rw (e, set_order)
        (lookup-insert u.id id (record a { order = u.order }) m
          ∙ elim (Bool-cases (str_eq u.id id)) [
            | inl hit ↦
                let f : lookup id m ≡ some a = cc (e, (eq_iff u.id id).0 hit) in
                rw (hit, f) (rw hit refl)
            | inr miss ↦ elim (Option-cases (lookup id m)) [
              | inl f ↦ rw (miss, f) refl
              | inr (b, f) ↦ rw (miss, f) (rw miss refl)
            ]
          ])
]

ordered-cons :
    (u : ComponentOrderUpdate) (us : List ComponentOrderUpdate) (id : String)
    (o : Option ComponentNode)
    → ordered us id (ordered (u ∷ []) id o) ≡ ordered (u ∷ us) id o
ordered-cons u us id none = refl
ordered-cons u us id (some a) = refl

lookup-set_orders :
    (m : Map ComponentNode) (us : List ComponentOrderUpdate) (id : String)
    → lookup id (set_orders m us) ≡ ordered us id (lookup id m)
unfolding set_orders
lookup-set_orders m [] id = elim (Option-cases (lookup id m)) [
  | inl e ↦ rw e refl
  | inr (a, e) ↦ rw e refl
]
lookup-set_orders m (u ∷ us) id =
    lookup-set_orders (set_order m u) us id
    ∙ rw (lookup-set_order m u id) (ordered-cons u us id (lookup id m))

-- What the checks of the first update say when they pass.
check_order-first :
    (s : InMemoryStore) (scope : Option (Option String)) (u : ComponentOrderUpdate)
    (us : List ComponentOrderUpdate)
    → check_order s scope (u ∷ us) ≡ none
    → (a : ComponentNode) × (lookup u.id s.components ≡ some a)
      × (ltb_ℤ u.order (pos 0) ≡ false)
      × (same_parent (value_or scope a.parent_id) a.parent_id ≡ true)
      × (check_order s (some (value_or scope a.parent_id)) us ≡ none)
unfolding check_order
check_order-first s scope u us h = elim (Bool-cases (is_empty u.id)) [
  | inl p ↦ absurd (ground arith)
  | inr p ↦ elim (Bool-cases (ltb_ℤ u.order (pos 0))) [
    | inl q ↦ absurd (ground arith)
    | inr q ↦ elim (Option-cases (lookup u.id s.components)) [
      | inl e ↦ absurd (ground arith)
      | inr (a, e) ↦ elim (Bool-cases (same_parent (value_or scope a.parent_id) a.parent_id)) [
        | inl r ↦ (a, e, q, r, ground arith)
        | inr r ↦ absurd (ground arith)
      ]
    ]
  ]
]

check_order-all :
    (s : InMemoryStore) (scope : Option (Option String)) (us : List ComponentOrderUpdate)
    (u : ComponentOrderUpdate)
    → check_order s scope us ≡ none
    → Member u us
    → (a : ComponentNode) × (lookup u.id s.components ≡ some a) × (ltb_ℤ u.order (pos 0) ≡ false)
check_order-all s scope [] u h m = absurd m
check_order-all s scope (v ∷ vs) u h m =
    let (a, e, q, r, rest) = check_order-first s scope v vs h in
    elim m [
      | inl same ↦ (a, rw same e, rw same q)
      | inr later ↦ check_order-all s (some (value_or scope a.parent_id)) vs u rest later
    ]

-- A reorder that succeeds finds the component of each update and a new order for it that is not
-- negative, and gives each component of the store the last order that the updates have for its id;
-- it changes nothing else of any component.
pub reorder-ordered :
    (s : InMemoryStore) (us : List ComponentOrderUpdate) (u : ComponentOrderUpdate) (id : String)
    {b : Bool} {s' : InMemoryStore}
    → reorder s us ≡ (ok b, s')
    → Member u us
    → ((a : ComponentNode) × (lookup u.id s.components ≡ some a) × (ltb_ℤ u.order (pos 0) ≡ false))
      × (lookup id s'.components ≡ ordered us id (lookup id s.components))
unfolding reorder
reorder-ordered s us u id {b} {s'} h m = elim (Option-cases (check_order s none us)) [
  | inl e ↦
      let same : set_orders s.components us ≡ s'.components = ground arith in
      (check_order-all s none us u e m, rw (← same) (lookup-set_orders s.components us id))
  | inr (x, e) ↦ absurd (ground arith)
]
