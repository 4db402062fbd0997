-- ===== src/Page.antt =====
-- libraries/dbal/production/src/entities/page: pages of the in-memory store, with a unique index by
-- path. `now` is the reading of the system clock.
pub mod Invariant
pub mod Frame
pub mod Paths
pub mod Updates
pub mod Search
use dbal.Prelude.{
  ℕ, suc, String, ◌<>◌, len, Bool, true, false, not, ◌&&◌, ◌||◌, Option, none, some, List, [], ◌∷◌,
  is_empty, value_or, or_else, str_eq, ltb, codes, if◌then◌else◌,
}
use dbal.Prelude.Int.{ℤ, pos, ltb_ℤ}
use dbal.Map.{Map, lookup, insert, erase, contains, values, taken, str_lt}
use dbal.Result.{
  Result, ok, err, validation_error, not_found, conflict, reject_if, find_or, when_set,
}
use dbal.Types.{Timestamp, PageConfig, CreatePageInput, UpdatePageInput, ListOptions}
use dbal.Store.{InMemoryStore}
use dbal.Store.Ids.{generate_id}
use dbal.Validation.{is_valid_path}
use dbal.Listing.{
  Outcome, thrown, sort_by, paginate, filter_list, matches_flag, contains_insensitive, cut, stoi,
}

abbrev pub with_pages : InMemoryStore → Map PageConfig → Map String → InMemoryStore
with_pages s pages paths = record s {
  contents = record s.contents { pages = pages; page_paths = paths };
}

abbrev pub count_page : InMemoryStore → InMemoryStore
count_page s = record s { contents = record s.contents { page_counter = suc s.page_counter } }

abbrev pub new_page : Timestamp → InMemoryStore → CreatePageInput → PageConfig
new_page now s input = record {
  id = generate_id "page" (suc s.page_counter);
  tenant_id = input.tenant_id;
  package_id = input.package_id;
  path = input.path;
  title = input.title;
  description = input.description;
  icon = input.icon;
  component = input.component;
  level = input.level;
  requires_auth = input.requires_auth;
  required_role = input.required_role;
  parent_path = input.parent_path;
  sort_order = input.sort_order;
  is_published = input.is_published;
  params = input.params;
  meta = input.meta;
  created_at = now;
}

abbrev pub bad_title : String → Bool
bad_title title = is_empty title || ltb 255 (len title)

abbrev pub bad_level : ℤ → Bool
bad_level level = ltb_ℤ level (pos 1) || ltb_ℤ (pos 6) level

unfoldable pub create :
    Timestamp → InMemoryStore → CreatePageInput → Result PageConfig × InMemoryStore
create now store input =
    reject_if (not (is_valid_path input.path)) (validation_error "Invalid path format") store (
      reject_if (bad_title input.title)
        (validation_error "Title must be between 1 and 255 characters") store
        (reject_if (bad_level input.level) (validation_error "Level must be between 1 and 6") store
          (reject_if (contains input.path store.page_paths)
            (conflict ("Page with path already exists: " <> input.path)) store
            (let page = new_page now store input in
              (
                ok page,
                with_pages (count_page store) (insert page.id page store.pages)
                    (insert page.path page.id store.page_paths),
              )))))

unfoldable pub remove : InMemoryStore → String → Result Bool × InMemoryStore
remove store id = reject_if (is_empty id) (validation_error "Page ID cannot be empty") store (
    find_or (lookup id store.pages) (not_found ("Page not found: " <> id)) store
      λ page. (ok true, with_pages store (erase id store.pages) (erase page.path store.page_paths)))

unfoldable pub get : InMemoryStore → String → Result PageConfig × InMemoryStore
get store id = reject_if (is_empty id) (validation_error "Page ID cannot be empty") store (
    find_or (lookup id store.pages) (not_found ("Page not found: " <> id)) store
      λ page. (ok page, store))

unfoldable pub get_by_path : InMemoryStore → String → Result PageConfig × InMemoryStore
get_by_path store path = reject_if (is_empty path) (validation_error "Path cannot be empty") store (
    find_or (lookup path store.page_paths) (not_found ("Page not found with path: " <> path)) store
      λ id. get store id)

-- What `update` assigns to the reference `PageConfig& page` is in the map at once.
abbrev pub put_page : InMemoryStore → String → PageConfig → InMemoryStore
put_page store id page = with_pages store (insert id page store.pages) store.page_paths

-- The fields after the level, which cannot fail.
abbrev pub set_rest : UpdatePageInput → PageConfig → PageConfig
set_rest input page = record page {
  requires_auth = value_or input.requires_auth page.requires_auth;
  required_role = or_else input.required_role page.required_role;
  parent_path = or_else input.parent_path page.parent_path;
  sort_order = value_or input.sort_order page.sort_order;
  is_published = value_or input.is_published page.is_published;
  params = or_else input.params page.params;
  meta = or_else input.meta page.meta;
  package_id = or_else input.package_id page.package_id;
  tenant_id = or_else input.tenant_id page.tenant_id;
}

unfoldable pub update_rest :
    InMemoryStore → String → PageConfig → UpdatePageInput → Result PageConfig × InMemoryStore
update_rest store id page input =
    let page' = set_rest input page in (ok page', put_page store id page')

unfoldable pub update_level :
    InMemoryStore → String → PageConfig → UpdatePageInput → Result PageConfig × InMemoryStore
update_level store id page input = when_set input.level (update_rest store id page input) λ level.
    reject_if (bad_level level) (validation_error "Level must be between 1 and 6") store (
      let page' : PageConfig = record page { level = level } in
      update_rest (put_page store id page') id page' input)

-- Description, icon and component stand between the title and the level.
abbrev pub set_texts : UpdatePageInput → PageConfig → PageConfig
set_texts input page = record page {
  description = or_else input.description page.description;
  icon = or_else input.icon page.icon;
  component = or_else input.component page.component;
}

unfoldable pub update_texts :
    InMemoryStore → String → PageConfig → UpdatePageInput → Result PageConfig × InMemoryStore
update_texts store id page input =
    let page' = set_texts input page in update_level (put_page store id page') id page' input

unfoldable pub update_title :
    InMemoryStore → String → PageConfig → UpdatePageInput → Result PageConfig × InMemoryStore
update_title store id page input = when_set input.title (update_texts store id page input) λ title.
    reject_if (bad_title title) (validation_error "Title must be between 1 and 255 characters")
      store
      (let page' : PageConfig = record page { title = title } in
        update_texts (put_page store id page') id page' input)

abbrev pub repath : InMemoryStore → String → PageConfig → String → InMemoryStore
repath store id page path =
    with_pages store (insert id (record page { path = path }) store.pages)
      (insert path id (erase page.path store.page_paths))

unfoldable pub update_path :
    InMemoryStore → String → PageConfig → UpdatePageInput → Result PageConfig × InMemoryStore
update_path store id page input = when_set input.path (update_title store id page input) λ path.
    reject_if (not (is_valid_path path)) (validation_error "Invalid path format") store (
      reject_if (taken (lookup path store.page_paths) id)
        (conflict ("Path already exists: " <> path)) store
        (update_title (repath store id page path) id (record page { path = path }) input))

unfoldable pub update : InMemoryStore → String → UpdatePageInput → Result PageConfig × InMemoryStore
update store id input = reject_if (is_empty id) (validation_error "Page ID cannot be empty") store (
    find_or (lookup id store.pages) (not_found ("Page not found: " <> id)) store
      λ page. update_path store id page input)

-- `std::stoi` of the level filter is called for each page, and throws where it reads no number.
unfoldable pub level_matches : ListOptions → PageConfig → Option Bool
level_matches options page = elim (lookup "level" options.filters) [
  | none ↦ some true
  | some text ↦ elim (stoi text) [
    | none ↦ none
    | some wanted ↦ some (not (ltb_ℤ page.level wanted || ltb_ℤ wanted page.level))
  ]
]

unfoldable pub collect : ListOptions → List PageConfig → Option (List PageConfig)
collect options [] = some []
collect options (page ∷ pages) =
    let rest = collect options pages in
    elim (level_matches options page) [
      | none ↦ none
      | some level_ok ↦ elim rest [
        | none ↦ none
        | some found ↦ some (
            if matches_flag options "isPublished" page.is_published && level_ok
            then page ∷ found
            else found)
      ]
    ]

unfoldable pub sort_pages : ListOptions → List PageConfig → List PageConfig
sort_pages options pages =
    if contains "title" options.sort
    then sort_by (λ a b. str_lt a.title b.title) pages
    else if contains "createdAt" options.sort
    then sort_by (λ a b. ltb a.created_at b.created_at) pages
    else pages

unfoldable pub list : InMemoryStore → ListOptions → Outcome (List PageConfig)
list store options = elim (collect options (values store.pages)) [
  | none ↦ thrown
  | some pages ↦ paginate options.page options.limit (sort_pages options pages)
]

unfoldable pub search : InMemoryStore → String → ℤ → Result (List PageConfig)
search store query limit =
    if is_empty query
    then err (validation_error "search query is required")
    else ok (
        cut limit (
          sort_by (λ a b. str_lt a.path b.path)
            (filter_list
              (λ page.
                contains_insensitive page.path query || contains_insensitive page.title query)
              (values store.pages))))
