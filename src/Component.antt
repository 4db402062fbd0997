-- ===== src/Component.antt =====
-- libraries/dbal/production/src/entities/component: the component trees of the pages, with an index
-- of the components of each page and one of the children of each component.
pub mod Descent
pub mod Reorder
pub mod Delete
pub mod Move
pub mod Queries
pub mod Lists
pub mod Tree
use dbal.Prelude.{
  ℕ, zero, suc, String, ◌<>◌, Bool, true, false, not, ◌++◌, Option, none, some, List, [], ◌∷◌,
  str_eq, is_empty, value_or, has_value, if◌then◌else◌,
}
use dbal.Prelude.Int.{ℤ, pos, ltb_ℤ}
use dbal.Map.{Map, lookup, insert, erase, contains}
use dbal.Result.{Result, Error, ok, err, validation_error, not_found, reject_if, find_or, when_set}
use dbal.Types.{ComponentNode, CreateComponentNodeInput, ComponentOrderUpdate, MoveComponentInput}
use dbal.Store.{InMemoryStore}
use dbal.Store.Ids.{generate_id}
use dbal.Validation.{is_valid_component_type, is_valid_component_order}

abbrev pub with_components :
    InMemoryStore → Map ComponentNode → Map (List String) → Map (List String) → InMemoryStore
with_components s components by_page by_parent = record s {
  contents = record s.contents {
    components = components;
    components_by_page = by_page;
    components_by_parent = by_parent;
  };
}

abbrev pub count_component : InMemoryStore → InMemoryStore
count_component s = record s {
  contents = record s.contents { component_counter = suc s.component_counter };
}

-- `index[key].push_back(id)`.
unfoldable pub add_entry : String → String → Map (List String) → Map (List String)
add_entry key id index = insert key (value_or (lookup key index) [] ++ id ∷ []) index

-- `std::remove` and `erase`.
unfoldable pub remove_all : String → List String → List String
remove_all id [] = []
remove_all id (i ∷ is) = let rest = remove_all id is in if str_eq i id then rest else i ∷ rest

-- An entry that becomes empty is erased.
unfoldable pub remove_entry : String → String → Map (List String) → Map (List String)
remove_entry key id index = elim (lookup key index) [
  | none ↦ index
  | some entries ↦ elim (remove_all id entries) [
    | [] ↦ erase key index
    | i ∷ is ↦ insert key (i ∷ is) index
  ]
]

-- The loop over the children: `none` where a call below runs out of fuel.
unfoldable pub scan_children : (String → Option Bool) → String → List String → Option Bool
scan_children deeper candidate [] = some false
scan_children deeper candidate (child ∷ children) = elim (str_eq child candidate) [
  | true ↦ some true
  | false ↦ elim (deeper child) [
    | none ↦ none
    | some true ↦ some true
    | some false ↦ scan_children deeper candidate children
  ]
]

unfoldable pub has_descendant : ℕ → Map (List String) → String → String → Option Bool
has_descendant zero by_parent ancestor candidate = none
has_descendant (suc fuel) by_parent ancestor candidate = elim (lookup ancestor by_parent) [
  | none ↦ some false
  | some children ↦
      scan_children (λ child. has_descendant fuel by_parent child candidate) candidate children
]

abbrev pub new_component : InMemoryStore → CreateComponentNodeInput → ComponentNode
new_component s input = record {
  id = generate_id "component" (suc s.component_counter);
  page_id = input.page_id;
  parent_id = input.parent_id;
  kind = input.kind;
  child_ids = input.child_ids;
  order = input.order;
}

abbrev pub add_component : InMemoryStore → ComponentNode → InMemoryStore
add_component s component =
    with_components s (insert component.id component s.components)
      (add_entry component.page_id component.id s.components_by_page)
      (elim component.parent_id [
        | none ↦ s.components_by_parent
        | some parent ↦ add_entry parent component.id s.components_by_parent
      ])

unfoldable pub create :
    InMemoryStore → CreateComponentNodeInput → Result ComponentNode × InMemoryStore
create store input =
    let created : Result ComponentNode × InMemoryStore = (
      ok (new_component store input),
      add_component (count_component store) (new_component store input),
    ) in
    reject_if (is_empty input.page_id) (validation_error "pageId is required") store (
      reject_if (not (is_valid_component_type input.kind))
        (validation_error "type must be 1-100 characters") store
        (reject_if (not (is_valid_component_order input.order))
          (validation_error "order must be a non-negative integer") store
          (reject_if (not (contains input.page_id store.pages))
            (not_found ("Page not found: " <> input.page_id)) store
            (when_set input.parent_id created λ parent.
              find_or (lookup parent store.components)
                (not_found ("Parent component not found: " <> parent)) store
                λ node.
                  reject_if (not (str_eq node.page_id input.page_id))
                    (validation_error "Parent component must belong to the same page") store
                    created))))

unfoldable pub get : InMemoryStore → String → Result ComponentNode × InMemoryStore
get store id = reject_if (is_empty id) (validation_error "Component ID cannot be empty") store (
    find_or (lookup id store.components) (not_found ("Component not found: " <> id)) store
      λ node. (ok node, store))

-- Of two optional ids.
abbrev pub same_parent : Option String → Option String → Bool
same_parent none none = true
same_parent none (some b) = false
same_parent (some a) none = false
same_parent (some a) (some b) = str_eq a b

-- The checks of `reorder`; `scope` is the parent of the first component, once there is one.
unfoldable pub check_order :
    InMemoryStore → Option (Option String) → List ComponentOrderUpdate → Option Error
check_order store scope [] = none
check_order store scope (u ∷ us) = elim (is_empty u.id) [
  | true ↦ some (validation_error "Component ID is required")
  | false ↦ elim (ltb_ℤ u.order (pos 0)) [
    | true ↦ some (validation_error "Order must be a non-negative integer")
    | false ↦ elim (lookup u.id store.components) [
      | none ↦ some (not_found ("Component not found: " <> u.id))
      | some node ↦ elim (same_parent (value_or scope node.parent_id) node.parent_id) [
        | false ↦ some (validation_error "All components must share the same parent")
        | true ↦ check_order store (some (value_or scope node.parent_id)) us
      ]
    ]
  ]
]

unfoldable pub set_order : Map ComponentNode → ComponentOrderUpdate → Map ComponentNode
set_order components u = elim (lookup u.id components) [
  | none ↦ components
  | some node ↦ insert u.id (record node { order = u.order }) components
]

unfoldable pub set_orders : Map ComponentNode → List ComponentOrderUpdate → Map ComponentNode
set_orders components [] = components
set_orders components (u ∷ us) = set_orders (set_order components u) us

-- Without updates both loops do nothing.
unfoldable pub reorder : InMemoryStore → List ComponentOrderUpdate → Result Bool × InMemoryStore
reorder store updates = elim (check_order store none updates) [
  | some e ↦ (err e, store)
  | none ↦ (
    ok true,
    with_components store (set_orders store.components updates) store.components_by_page
        store.components_by_parent,
  )
]
