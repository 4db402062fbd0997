-- ===== src/Component/Tree.antt =====
-- libraries/dbal/production/src/entities/component/crud/get_tree.hpp: the components of a page, each
-- in front of those below it. The recursion of `buildTree` runs on fuel, and `none` is where that
-- runs out; an id that `at` does not find ends as `thrown`.
pub mod Walks
pub mod Visits
use dbal.Prelude.{
  ℕ, zero, suc, String, ◌<>◌, Bool, true, false, not, ◌&&◌, Option, none, some, List, [], ◌∷◌, ◌++◌,
  str_eq, is_empty, has_value, value_or, if◌then◌else◌,
}
use dbal.Prelude.Int.{ltb_ℤ}
use dbal.Map.{Map, lookup, contains}
use dbal.Result.{Result, ok, err, validation_error, not_found}
use dbal.Types.{ComponentNode}
use dbal.Store.{InMemoryStore}
use dbal.Listing.{Outcome, done, thrown, undefined, sort_by}

-- A component under its id in the map.
abbrev pub Entry : Type 0
Entry = String × ComponentNode

abbrev pub is_root : String → ComponentNode → Bool
is_root page node = str_eq node.page_id page && not (has_value node.parent_id)

unfoldable pub roots : String → Map ComponentNode → List String
roots page [] = []
roots page ((id, node) ∷ m) =
    let rest = roots page m in if is_root page node then id ∷ rest else rest

-- The ids before they are sorted; `none` stands for the page itself.
unfoldable pub collect_children : InMemoryStore → Option String → String → List String
unfolding roots lookup
collect_children store (some parent) page = value_or (lookup parent store.components_by_parent) []
collect_children store none page = roots page store.components

abbrev pub with_entry : String → Option ComponentNode → Option (List Entry) → Option (List Entry)
with_entry id (some node) (some entries) = some ((id, node) ∷ entries)
with_entry id _ _ = none

-- `at` for each id, as the comparisons and the loop read it.
unfoldable pub entries_at : Map ComponentNode → List String → Option (List Entry)
unfolding lookup
entries_at m [] = some []
entries_at m (id ∷ ids) = with_entry id (lookup id m) (entries_at m ids)

abbrev pub order_lt : Entry → Entry → Bool
order_lt a b = ltb_ℤ a.1.order b.1.order

abbrev pub Walk : Type 0
Walk = Option (Outcome (List ComponentNode))

abbrev pub joined : ComponentNode → Walk → Walk → Walk
joined node (some (done below)) (some (done rest)) = some (done (node ∷ (below ++ rest)))
joined node (some (done below)) w = w
joined node w rest = w

-- The loop over the sorted children; `deeper` is the call for one of them.
unfoldable pub visit_all : (String → Walk) → List Entry → Walk
visit_all deeper [] = some (done [])
visit_all deeper ((id, node) ∷ entries) = joined node (deeper id) (visit_all deeper entries)

abbrev pub visit_found : (String → Walk) → Option (List Entry) → Walk
visit_found deeper none = some thrown
visit_found deeper (some entries) = visit_all deeper (sort_by order_lt entries)

unfoldable pub build_tree : ℕ → InMemoryStore → String → Option String → Walk
unfolding collect_children entries_at visit_all sort_by
build_tree zero store page parent = none
build_tree (suc fuel) store page parent =
    visit_found (λ id. build_tree fuel store page (some id))
      (entries_at store.components (collect_children store parent page))

abbrev pub tree_result : Walk → Option (Outcome (Result (List ComponentNode)))
tree_result none = none
tree_result (some (done tree)) = some (done (ok tree))
tree_result (some thrown) = some thrown
tree_result (some undefined) = some undefined

unfoldable pub get_tree :
    ℕ → InMemoryStore → String → Option (Outcome (Result (List ComponentNode)))
unfolding build_tree contains
get_tree fuel store page =
    if is_empty page
    then some (done (err (validation_error "pageId is required")))
    else if not (contains page store.pages)
    then some (done (err (not_found ("Page not found: " <> page))))
    else tree_result (build_tree fuel store page none)
