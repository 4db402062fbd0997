-- ===== src/Tests/Pages.antt =====
-- The theorems on pages and on lists at concrete stores.
use dbal.Prelude.{
  ℕ, ◌*◌, String, ◌≡◌, ◌≢◌, ◌↔◌, refl, false, true, none, some, List, [], ◌∷◌, arith, take, Member,
}
use dbal.Prelude.Int.{pos, ltb_ℤ}
use dbal.Map.{lookup, insert, erase, contains}
use dbal.Result.{ok, reject_if, find_or, when_set}
use dbal.Types.{PageConfig, CreatePageInput, UpdatePageInput}
use dbal.Store.{InMemoryStore, init}
use dbal.Store.Ids.{generate_id, generate_id-injective, fits_buffer}
use dbal.Validation.{is_valid_path}
use dbal.Listing.Pages.{first_pages, first_pages-take}
use dbal.Page
use dbal.Page.Invariant
use dbal.Page.Updates.{update-moves_path}
use dbal.Page.Search.{IsHit, search-hits}
use dbal.System.Invariant.{init-IsValid}

abbrev home : CreatePageInput
home = record {
  tenant_id = none;
  package_id = none;
  path = "/home";
  title = "Home";
  description = none;
  icon = none;
  component = none;
  level = pos 1;
  requires_auth = false;
  required_role = none;
  parent_path = none;
  sort_order = pos 0;
  is_published = true;
  params = none;
  meta = none;
}

abbrev page_1 : PageConfig
page_1 = Page.new_page 5 init home

abbrev store_1 : InMemoryStore
store_1 =
    Page.with_pages (Page.count_page init) (insert page_1.id page_1 [])
      (insert "/home" page_1.id [])

create-page_1 : Page.create 5 init home ≡ (ok page_1, store_1)
unfolding Page.create is_valid_path reject_if contains lookup ltb_ℤ
create-page_1 = refl

store_1-IsValid : Page.Invariant.IsValid store_1
unfolding Page.create is_valid_path reject_if contains lookup ltb_ℤ insert
store_1-IsValid = (Page.Invariant.create-IsValid 5 init home init-IsValid.pages (omega arith)).left

lookup_1 : lookup "page_00000001" store_1.pages ≡ some page_1
unfolding lookup insert generate_id
lookup_1 = refl

search-hits_example :
    (found : List PageConfig) × (Page.search store_1 "HOM" (pos 0) ≡ ok found)
    × (Member page_1 found
        ↔ ((id : String) × (lookup id store_1.pages ≡ some page_1) × IsHit "HOM" page_1))
search-hits_example = search-hits store_1 "HOM" page_1 store_1-IsValid refl

abbrev nothing : UpdatePageInput
nothing = record {
  tenant_id = none;
  package_id = none;
  path = none;
  title = none;
  description = none;
  icon = none;
  component = none;
  level = none;
  requires_auth = none;
  required_role = none;
  parent_path = none;
  sort_order = none;
  is_published = none;
  params = none;
  meta = none;
}

abbrev change : UpdatePageInput
change = record nothing { path = some "/start"; level = some (pos 2) }

abbrev page_2 : PageConfig
page_2 = record page_1 { path = "/start"; level = pos 2 }

abbrev store_2 : InMemoryStore
store_2 = (Page.update store_1 "page_00000001" change).1

update_page_1 : Page.update store_1 "page_00000001" change ≡ (ok page_2, store_2)
unfolding Page.update Page.update_path Page.update_title Page.update_texts Page.update_level
    Page.update_rest is_valid_path reject_if find_or when_set contains lookup insert erase
    generate_id ltb_ℤ
update_page_1 = refl

update-moves_path_example :
    (lookup page_2.path store_2.page_paths ≡ some "page_00000001")
    × (page_1.path ≢ page_2.path → lookup page_1.path store_2.page_paths ≡ none)
update-moves_path_example =
    update-moves_path store_1 "page_00000001" change page_1 page_2 {s' = store_2} store_1-IsValid
      lookup_1 update_page_1

-- Two pages of two items.
abbrev letters : List String
letters = "a" ∷ "b" ∷ "c" ∷ "d" ∷ "e" ∷ []

first_pages-take_example : first_pages 2 (pos 2) letters ≡ take (2 * 2) letters
first_pages-take_example = first_pages-take 2 2 letters (omega arith) (omega arith) (omega arith)

generate_id-injective_example : ◌≡◌ {A = ℕ} 7 7
generate_id-injective_example =
    generate_id-injective "page" 7 7 (unfold fits_buffer in refl) (omega arith) (omega arith) refl
