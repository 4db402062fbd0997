-- ===== src/Component/Queries.antt =====
-- libraries/dbal/production/src/entities/component/crud/search_components.hpp: the search.
use dbal.Prelude.{
  String, Bool, true, false, not, ◌&&◌, ◌||◌, Option, none, some, List, str_eq, is_empty,
  if◌then◌else◌, ◌≡◌, ◌↔◌, refl, Member,
}
use dbal.Prelude.Int.{ℤ, pos, ltb_ℤ}
use dbal.Map.{lookup, values, str_lt}
use dbal.Map.Order.{IsOrdered, Member-values_of_lookup, lookup_of_Member-values}
use dbal.Result.{Result, ok, err, validation_error}
use dbal.Types.{ComponentNode}
use dbal.Store.{InMemoryStore}
use dbal.Listing.{filter_list, sort_by, contains_insensitive, cut}
use dbal.Listing.Sorting.{Member-filter_list, Member-sort_by, Member-sort_by'}

-- `pageId.has_value() && component.pageId != pageId.value()` skips a component.
abbrev pub on_page : Option String → ComponentNode → Bool
on_page none node = true
on_page (some page) node = str_eq node.page_id page

-- An empty query finds nothing; `search` rejects it before.
abbrev pub contains_query : String → String → Bool
contains_query text query = if is_empty query then false else contains_insensitive text query

abbrev pub is_found : String → Option String → ComponentNode → Bool
is_found query page node =
    on_page page node && (contains_query node.kind query || contains_query node.child_ids query)

abbrev pub by_kind : ComponentNode → ComponentNode → Bool
by_kind a b = if not (str_eq a.kind b.kind) then str_lt a.kind b.kind else ltb_ℤ a.order b.order

unfoldable pub search : InMemoryStore → String → Option String → ℤ → Result (List ComponentNode)
search store query page limit =
    if is_empty query
    then err (validation_error "search query is required")
    else ok
        (cut limit (sort_by by_kind (filter_list (is_found query page) (values store.components))))

found_nodes : InMemoryStore → String → Option String → List ComponentNode
found_nodes s query page = sort_by by_kind (filter_list (is_found query page) (values s.components))

Member-found_nodes :
    (s : InMemoryStore) (query : String) (page : Option String) (a : ComponentNode)
    → IsOrdered s.components
    → Member a (found_nodes s query page)
      ↔ ((id : String) × (lookup id s.components ≡ some a) × (is_found query page a ≡ true))
unfolding found_nodes
Member-found_nodes s query page a v =
    let found = filter_list (is_found query page) (values s.components) in
    let filters = Member-filter_list (is_found query page) a (values s.components) in
    (
      λ m.
          let (here, fits) = filters.0 (Member-sort_by by_kind a found m) in
          let (id, e) = lookup_of_Member-values a s.components v here in (id, e, fits),
      λ (id, e, fits).
          Member-sort_by' by_kind a found
            (filters.1 (Member-values_of_lookup id a s.components e, fits)),
    )

-- A search with a query and with no limit (0) finds exactly the components, of the page if one is
-- given, whose type or child ids contain the query, in a store whose components are in the order of
-- their ids.
pub search-found_nodes :
    (s : InMemoryStore) (query : String) (page : Option String) (a : ComponentNode)
    → IsOrdered s.components
    → is_empty query ≡ false
    → (found : List ComponentNode) × (search s query page (pos 0) ≡ ok found)
      × (Member a found
          ↔ ((id : String) × (lookup id s.components ≡ some a) × (is_found query page a ≡ true)))
unfolding search cut
search-found_nodes s query page a v h = (
  found_nodes s query page,
  unfold found_nodes in (rw h refl),
  Member-found_nodes s query page a v,
)
