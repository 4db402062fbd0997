-- ===== src/Page/Search.antt =====
-- `search` of libraries/dbal/production/src/entities/page/crud/search_pages.hpp.
use dbal.Prelude.{
  String, ◌≡◌, ◌↔◌, refl, Bool, true, false, ◌||◌, some, List, is_empty, Member, ◌⊎◌, inl, inr,
}
use dbal.Prelude.Int.{pos}
use dbal.Map.{lookup, values, str_lt}
use dbal.Map.Order.{Member-values_of_lookup, lookup_of_Member-values}
use dbal.Result.{ok}
use dbal.Types.{PageConfig}
use dbal.Store.{InMemoryStore}
use dbal.Listing.{sort_by, filter_list, contains_insensitive, cut}
use dbal.Listing.Sorting.{Member-filter_list, Member-sort_by, Member-sort_by'}
use dbal.Listing.Texts.{ContainsInsensitive, contains_insensitive-ContainsInsensitive}
use dbal.Page.{search}
use dbal.Page.Invariant.{IsValid}

abbrev is_hit : String → PageConfig → Bool
is_hit query page = contains_insensitive page.path query || contains_insensitive page.title query

-- The path or the title contains the query, whatever the case of its letters.
abbrev pub IsHit : String → PageConfig → Type 0
IsHit query page = ContainsInsensitive page.path query ⊎ ContainsInsensitive page.title query

or_iff : (a b : Bool) → ((a || b) ≡ true) ↔ ((a ≡ true) ⊎ (b ≡ true))
or_iff true b = (λ h. inl h, λ h. refl)
or_iff false b = (λ h. inr h, λ h. elim h [ inl e ↦ absurd (cc e) | inr e ↦ e ])

is_hit-IsHit : (query : String) (page : PageConfig) → (is_hit query page ≡ true) ↔ IsHit query page
is_hit-IsHit query page =
    let path = contains_insensitive-ContainsInsensitive page.path query in
    let title = contains_insensitive-ContainsInsensitive page.title query in
    let either =
      or_iff (contains_insensitive page.path query) (contains_insensitive page.title query) in
    (
      λ h. elim (either.0 h) [ inl e ↦ inl (path.0 e) | inr e ↦ inr (title.0 e) ],
      λ h. either.1 (elim h [ inl e ↦ inl (path.1 e) | inr e ↦ inr (title.1 e) ]),
    )

hits : InMemoryStore → String → List PageConfig
hits s query = sort_by (λ a b. str_lt a.path b.path) (filter_list (is_hit query) (values s.pages))

Member-hits :
    (s : InMemoryStore) (query : String) (a : PageConfig)
    → IsValid s
    → Member a (hits s query) ↔ ((id : String) × (lookup id s.pages ≡ some a) × IsHit query a)
unfolding hits
Member-hits s query a v =
    let found = filter_list (is_hit query) (values s.pages) in
    let less : PageConfig → PageConfig → Bool = λ a b. str_lt a.path b.path in
    let filters = Member-filter_list (is_hit query) a (values s.pages) in
    (
      λ m.
          let (here, fits) = filters.0 (Member-sort_by less a found m) in
          let (id, e) = lookup_of_Member-values a s.pages v.ordered here in
          (id, e, (is_hit-IsHit query a).0 fits),
      λ (id, e, fits).
          Member-sort_by' less a found
            (filters.1 (Member-values_of_lookup id a s.pages e, (is_hit-IsHit query a).1 fits)),
    )

-- A search with a query and with no limit (0) finds exactly the pages of the consistent store whose
-- path or title contains the query as a text in a row, the case of the letters A to Z
-- aside.
pub search-hits :
    (s : InMemoryStore) (query : String) (a : PageConfig)
    → IsValid s
    → is_empty query ≡ false
    → (found : List PageConfig) × (search s query (pos 0) ≡ ok found)
      × (Member a found ↔ ((id : String) × (lookup id s.pages ≡ some a) × IsHit query a))
unfolding search cut
search-hits s query a v h = (hits s query, unfold hits in (rw h refl), Member-hits s query a v)
