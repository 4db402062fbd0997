-- ===== src/Component/Move/Cycle.antt =====
-- The test against cycles in `move` of libraries/dbal/production/src/entities/component/crud/move_component.hpp.
use dbal.Prelude.{ℕ, ◌<◌, String, ◌≡◌, refl, true, false, some, str_eq, is_empty, ap, ◌∙◌}
use dbal.Prelude.Int.{pos, ltb_ℤ}
use dbal.Map.{lookup}
use dbal.Result.{err, validation_error}
use dbal.Types.{ComponentNode, MoveComponentInput}
use dbal.Store.{InMemoryStore}
use dbal.Component.{has_descendant}
use dbal.Component.Descent.{Descends, IsForest, has_descendant-Decides}
use dbal.Component.Move.{move, check_parent}

-- In a store whose children form no cycle, and with more fuel than the height of the component, a
-- move to an order that is not negative of a component, stored under its own id, under another one of
-- its page that stands below it is an error and changes nothing; the ids are not empty.
pub move-Descends :
    (height : String → ℕ) (fuel : ℕ) (s : InMemoryStore) (input : MoveComponentInput)
    (node parent : ComponentNode)
    → IsForest s.components_by_parent height
    → height input.id < fuel
    → is_empty input.id ≡ false
    → ltb_ℤ input.order (pos 0) ≡ false
    → lookup input.id s.components ≡ some node
    → node.id ≡ input.id
    → is_empty input.new_parent_id ≡ false
    → str_eq input.new_parent_id input.id ≡ false
    → lookup input.new_parent_id s.components ≡ some parent
    → str_eq parent.page_id node.page_id ≡ true
    → Descends s.components_by_parent input.new_parent_id input.id
    → move fuel s input
      ≡ some (err (validation_error "Cannot move component under its descendant"), s)
unfolding move check_parent
move-Descends height fuel s input node parent f h p o e own q n e' g d =
    let (b, r, w) =
      has_descendant-Decides s.components_by_parent height fuel input.id input.new_parent_id f h in
    let hit : has_descendant fuel s.components_by_parent input.id input.new_parent_id ≡ some true =
      cc (r, w.1 d) in
    let apart : str_eq input.new_parent_id node.id ≡ false =
      ap (str_eq input.new_parent_id) own ∙ n in
    let hit' : has_descendant fuel s.components_by_parent node.id input.new_parent_id ≡ some true =
      ap (λ i. has_descendant fuel s.components_by_parent i input.new_parent_id) own ∙ hit in
    rw (p, o, e, apart, q, e', g, hit') refl
