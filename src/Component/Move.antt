-- ===== src/Component/Move.antt =====
-- `move` and `update` of libraries/dbal/production/src/entities/component/crud/move_component.hpp and
-- update_component.hpp, with fuel for `hasDescendant`: `none` is a search that runs out of it.
pub mod Cycle
use dbal.Prelude.{
  ℕ, String, ◌<>◌, Bool, true, false, not, Option, none, some, List, str_eq, is_empty, value_or,
  if◌then◌else◌,
}
use dbal.Prelude.Int.{ℤ, pos, ltb_ℤ}
use dbal.Map.{Map, lookup, insert}
use dbal.Result.{Result, Error, ok, err, validation_error, not_found}
use dbal.Types.{ComponentNode, MoveComponentInput, UpdateComponentNodeInput}
use dbal.Store.{InMemoryStore}
use dbal.Validation.{is_valid_component_type, is_valid_component_order}
use dbal.Component.{with_components, add_entry, remove_entry, has_descendant}

-- The checks of a new parent that both operations make, with the text for another page; `some none`
-- lets the parent pass.
unfoldable pub check_parent :
    ℕ → InMemoryStore → ComponentNode → String → String → String → Option (Option Error)
check_parent fuel store node id parent other_page = elim (lookup parent store.components) [
  | none ↦ some (some (not_found ("Parent component not found: " <> parent)))
  | some above ↦
      if not (str_eq above.page_id node.page_id)
      then some (some (validation_error other_page))
      else elim (has_descendant fuel store.components_by_parent id parent) [
        | none ↦ none
        | some true ↦ some (some (validation_error "Cannot move component under its descendant"))
        | some false ↦ some none
      ]
]

-- Out of the entry of the old parent.
abbrev pub leave_parent : Map (List String) → ComponentNode → String → Map (List String)
leave_parent by_parent node id = elim node.parent_id [
  | none ↦ by_parent
  | some parent ↦ remove_entry parent id by_parent
]

-- `component.id`, by which `move` goes, is a field of the node.
abbrev pub place :
    InMemoryStore → String → ComponentNode → String → ℤ → Result ComponentNode × InMemoryStore
place store id node parent order =
    let left = leave_parent store.components_by_parent node node.id in
    let node' : ComponentNode = record node {
      parent_id = if is_empty parent then none else some parent;
      order = order;
    } in
    (
      ok node',
      with_components store (insert id node' store.components) store.components_by_page
          (if is_empty parent then left else add_entry parent node.id left),
    )

unfoldable pub move :
    ℕ → InMemoryStore → MoveComponentInput → Option (Result ComponentNode × InMemoryStore)
move fuel store input =
    if is_empty input.id
    then some (err (validation_error "Component ID is required"), store)
    else if ltb_ℤ input.order (pos 0)
    then some (err (validation_error "Order must be a non-negative integer"), store)
    else elim (lookup input.id store.components) [
      | none ↦ some (err (not_found ("Component not found: " <> input.id)), store)
      | some node ↦
          if str_eq input.new_parent_id node.id
          then some (err (validation_error "Component cannot be its own parent"), store)
          else if is_empty input.new_parent_id
          then some (place store input.id node input.new_parent_id input.order)
          else elim (check_parent fuel store node node.id input.new_parent_id
              "New parent must belong to the same page") [
                | none ↦ none
                | some (some e) ↦ some (err e, store)
                | some none ↦ some (place store input.id node input.new_parent_id input.order)
              ]
    ]

abbrev pub put_component : InMemoryStore → String → ComponentNode → InMemoryStore
put_component store id node =
    with_components store (insert id node store.components) store.components_by_page
      store.components_by_parent

-- The last stages of `update`; the store has `node` under `id`.
unfoldable pub update_parent :
    ℕ
    → InMemoryStore
    → String
    → ComponentNode
    → UpdateComponentNodeInput
    → Option (Result ComponentNode × InMemoryStore)
update_parent fuel store id node input = elim input.parent_id [
  | none ↦ some (ok node, store)
  | some parent ↦
      if is_empty parent
      then some (err (validation_error "parentId cannot be empty"), store)
      else if str_eq parent id
      then some (err (validation_error "Component cannot be its own parent"), store)
      else elim (check_parent fuel store node id parent
          "Parent component must belong to the same page") [
            | none ↦ none
            | some (some e) ↦ some (err e, store)
            | some none ↦
                let node' : ComponentNode = record node { parent_id = some parent } in
                some (
                  ok node',
                  with_components store (insert id node' store.components) store.components_by_page
                      (add_entry parent id (leave_parent store.components_by_parent node id)),
                )
          ]
]

unfoldable pub update_order :
    ℕ
    → InMemoryStore
    → String
    → ComponentNode
    → UpdateComponentNodeInput
    → Option (Result ComponentNode × InMemoryStore)
update_order fuel store id node input =
    let order = value_or input.order node.order in
    let child_ids = value_or input.child_ids node.child_ids in
    let node' : ComponentNode = record node { order = order; child_ids = child_ids } in
    elim input.order [
      | none ↦ update_parent fuel (put_component store id node') id node' input
      | some new ↦
          if not (is_valid_component_order new)
          then some (err (validation_error "order must be a non-negative integer"), store)
          else update_parent fuel (put_component store id node') id node' input
    ]

unfoldable pub update :
    ℕ
    → InMemoryStore
    → String
    → UpdateComponentNodeInput
    → Option (Result ComponentNode × InMemoryStore)
update fuel store id input =
    if is_empty id
    then some (err (validation_error "Component ID cannot be empty"), store)
    else elim (lookup id store.components) [
      | none ↦ some (err (not_found ("Component not found: " <> id)), store)
      | some node ↦ elim input.kind [
        | none ↦ update_order fuel store id node input
        | some kind ↦
            if not (is_valid_component_type kind)
            then some (err (validation_error "type must be 1-100 characters"), store)
            else (let node' : ComponentNode = record node { kind = kind } in
                update_order fuel (put_component store id node') id node' input)
      ]
    ]
