-- ===== src/Component/Lists.antt =====
-- libraries/dbal/production/src/entities/component/crud/list_components.hpp and get_children.hpp.
use dbal.Prelude.{
  String, ◌<>◌, Bool, true, false, not, ◌&&◌, ◌||◌, Option, none, some, List, [], ◌∷◌, str_eq,
  is_empty, length, if◌then◌else◌,
}
use dbal.Prelude.Int.{ℤ, pos, ltb_ℤ}
use dbal.Map.{lookup, values, str_lt}
use dbal.Result.{Result, ok, err, validation_error, not_found}
use dbal.Types.{ComponentNode, ListOptions}
use dbal.Store.{InMemoryStore}
use dbal.Listing.{
  Outcome, done, thrown, matches_filter, matches_optional, filter_list, sort_by, cut, paginate,
}

-- An empty filter for the page is none.
abbrev page_matches : ListOptions → ComponentNode → Bool
page_matches options node = elim (lookup "pageId" options.filters) [
  | none ↦ true
  | some page ↦ is_empty page || str_eq node.page_id page
]

abbrev is_listed : ListOptions → ComponentNode → Bool
is_listed options node =
    page_matches options node
    && matches_optional options "parentId" node.parent_id
    && matches_filter options "type" node.kind

-- `operator<` of std::optional: what is absent comes first.
abbrev parent_lt : Option String → Option String → Bool
parent_lt none none = false
parent_lt none (some b) = true
parent_lt (some a) none = false
parent_lt (some a) (some b) = str_lt a b

abbrev parent_eq : Option String → Option String → Bool
parent_eq none none = true
parent_eq (some a) (some b) = str_eq a b
parent_eq _ _ = false

abbrev comes_first : ComponentNode → ComponentNode → Bool
comes_first a b =
    if not (str_eq a.page_id b.page_id)
    then str_lt a.page_id b.page_id
    else if not (parent_eq a.parent_id b.parent_id)
    then parent_lt a.parent_id b.parent_id
    else if ltb_ℤ a.order b.order
    then true
    else if ltb_ℤ b.order a.order
    then false
    else str_lt a.id b.id

-- A page below 1 is the first, and a limit that is not positive is the number of components.
unfoldable pub list : InMemoryStore → ListOptions → Outcome (List ComponentNode)
unfolding filter_list sort_by matches_filter matches_optional
list store options =
    let found = sort_by comes_first (filter_list (is_listed options) (values store.components)) in
    let page = if ltb_ℤ (pos 1) options.page then options.page else pos 1 in
    let limit = if ltb_ℤ (pos 0) options.limit then options.limit else pos (length found) in
    elim found [ [] ↦ done [] | node ∷ nodes ↦ paginate page limit (node ∷ nodes) ]

-- `store.components.at` for each id: one that is not there makes it throw.
unfoldable pub all_at : InMemoryStore → List String → Option (List ComponentNode)
all_at store [] = some []
all_at store (id ∷ ids) = elim (lookup id store.components) [
  | none ↦ none
  | some node ↦ elim (all_at store ids) [ none ↦ none | some nodes ↦ some (node ∷ nodes) ]
]

abbrev has_kind : Option String → ComponentNode → Bool
has_kind none node = true
has_kind (some kind) node = str_eq node.kind kind

unfoldable pub get_children :
    InMemoryStore → String → Option String → ℤ → Outcome (Result (List ComponentNode))
unfolding all_at
get_children store parent kind limit =
    if is_empty parent
    then done (err (validation_error "parentId is required"))
    else elim (lookup parent store.components) [
      | none ↦ done (err (not_found ("Component not found: " <> parent)))
      | some node ↦ elim (lookup parent store.components_by_parent) [
        | none ↦ done (ok [])
        | some ids ↦ elim (all_at store ids) [
          | none ↦ thrown
          | some nodes ↦ done (
              ok (
                cut limit
                  (filter_list (has_kind kind) (sort_by (λ a b. ltb_ℤ a.order b.order) nodes))))
        ]
      ]
    ]
