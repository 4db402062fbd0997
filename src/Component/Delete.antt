-- ===== src/Component/Delete.antt =====
-- `cascadeDeleteComponent` of libraries/dbal/production/src/entities/component/helpers.hpp and
-- `remove` of libraries/dbal/production/src/entities/component/crud/delete_component.hpp, with
-- fuel for the recursion into the children.
pub mod Shrinks
pub mod Severs
pub mod Unlinks
pub mod Parts
use dbal.Prelude.{
  ℕ, zero, suc, ◌<◌, String, ◌<>◌, ◌≡◌, ◌⊎◌, refl, sym, ◌∙◌, Bool, true, false, Option, none, some,
  List, [], ◌∷◌, arith, Member, subst, inl, inr, Bool-cases, Option-cases, str_eq, eq_iff, eq_refl,
  is_empty, if◌then◌else◌,
}
use dbal.Map.{Map, lookup, insert, erase, lookup-insert, lookup-erase}
use dbal.Result.{Result, ok, err, validation_error, not_found}
use dbal.Types.{ComponentNode}
use dbal.Store.{InMemoryStore}
use dbal.Component.{with_components, remove_all, remove_entry}
use dbal.Component.Descent.{IsForest}

-- The end of the deletion of one component.
unfoldable pub unlink : InMemoryStore → String → ComponentNode → InMemoryStore
unlink s id component =
    with_components s (erase id s.components)
      (remove_entry component.page_id id s.components_by_page)
      (elim component.parent_id [
        | none ↦ s.components_by_parent
        | some parent ↦ remove_entry parent id s.components_by_parent
      ])

abbrev pub forget_children : InMemoryStore → String → InMemoryStore
forget_children s id =
    with_components s s.components s.components_by_page (erase id s.components_by_parent)

unfoldable pub cascade_all :
    (InMemoryStore → String → Option InMemoryStore)
    → InMemoryStore
    → List String
    → Option InMemoryStore
cascade_all one s [] = some s
cascade_all one s (id ∷ ids) = elim (one s id) [ none ↦ none | some t ↦ cascade_all one t ids ]

-- `none` where the fuel runs out.
unfoldable pub cascade : ℕ → InMemoryStore → String → Option InMemoryStore
cascade zero s id = none
cascade (suc fuel) s id = elim (lookup id s.components) [
  | none ↦ some s
  | some component ↦ elim (lookup id s.components_by_parent) [
    | none ↦ some (unlink s id component)
    | some children ↦ elim (cascade_all (λ t child. cascade fuel t child) s children) [
      | none ↦ none
      | some t ↦ some (unlink (forget_children t id) id component)
    ]
  ]
]

unfoldable pub remove : ℕ → InMemoryStore → String → Option (Result Bool × InMemoryStore)
remove fuel store id =
    if is_empty id
    then some (err (validation_error "Component ID cannot be empty"), store)
    else elim (lookup id store.components) [
      | none ↦ some (err (not_found ("Component not found: " <> id)), store)
      | some component ↦ elim (cascade fuel store id) [ none ↦ none | some t ↦ some (ok true, t) ]
    ]
