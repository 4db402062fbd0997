-- ===== src/Page/Paths.antt =====
-- What a path is good for after the operations of libraries/dbal/production/src/entities/page.
use dbal.Prelude.{suc, String, ◌≡◌, subst, refl, false, some, arith, is_empty, not}
use dbal.Map.{lookup, insert, lookup-insert_self}
use dbal.Result.{Result, ok, reject_if, find_or, reject_if-ok}
use dbal.Types.{Timestamp, PageConfig, CreatePageInput}
use dbal.Store.{InMemoryStore}
use dbal.Store.Ids.{generate_id, generate_id-not-empty}
use dbal.Validation.{is_valid_path}
use dbal.Page.{create, get, get_by_path, new_page, with_pages, count_page}
use dbal.Page.Invariant.{IsValid}

valid-not-empty : (path : String) → not (is_valid_path path) ≡ false → is_empty path ≡ false
unfolding is_valid_path
valid-not-empty path h = ground arith

created : Timestamp → InMemoryStore → CreatePageInput → Result PageConfig × InMemoryStore
created now s input = (
  ok (new_page now s input),
  with_pages (count_page s) (insert (new_page now s input).id (new_page now s input) s.pages)
      (insert input.path (new_page now s input).id s.page_paths),
)

create-ok :
    (now : Timestamp) (s : InMemoryStore) (input : CreatePageInput) {a : PageConfig}
    {s' : InMemoryStore}
    → create now s input ≡ (ok a, s')
    → (is_empty input.path ≡ false) × (created now s input ≡ (ok a, s'))
unfolding create created
create-ok now s input h =
    let (p, h₁) = reject_if-ok _ _ _ _ h in
    let (q, h₂) = reject_if-ok _ _ _ _ h₁ in
    let (r, h₃) = reject_if-ok _ _ _ _ h₂ in
    let (t, h₄) = reject_if-ok _ _ _ _ h₃ in (valid-not-empty input.path p, h₄)

find_by_path :
    (s : InMemoryStore) (path id : String) (a : PageConfig)
    → is_empty path ≡ false
    → is_empty id ≡ false
    → lookup path s.page_paths ≡ some id
    → lookup id s.pages ≡ some a
    → get_by_path s path ≡ (ok a, s)
unfolding get_by_path get reject_if find_or
find_by_path s path id a p q e f = rw (p, e, q, f) refl

-- A page that was created is found by its path, as it was created.
pub get_by_path-create :
    (now : Timestamp) (s : InMemoryStore) (input : CreatePageInput) {a : PageConfig}
    {s' : InMemoryStore}
    → create now s input ≡ (ok a, s')
    → get_by_path s' input.path ≡ (ok a, s')
get_by_path-create now s input h =
    let (p, e) = create-ok now s input h in
    let id = generate_id "page" (suc s.page_counter) in
    subst (λ (r : Result PageConfig × InMemoryStore). get_by_path r.1 input.path ≡ r) e
      (unfold created in
        (find_by_path (created now s input).1 input.path id (new_page now s input) p
          (generate_id-not-empty "page" (suc s.page_counter) (λ q. cc))
          (lookup-insert_self input.path id s.page_paths)
          (lookup-insert_self id (new_page now s input) s.pages)))

-- In a consistent store each page whose id and path are not empty is found by its path.
pub get_by_path-stored :
    (s : InMemoryStore) (id : String) (a : PageConfig)
    → IsValid s
    → is_empty id ≡ false
    → is_empty a.path ≡ false
    → lookup id s.pages ≡ some a
    → get_by_path s a.path ≡ (ok a, s)
get_by_path-stored s id a v p q e = find_by_path s a.path id a q p (v.index.forward id a e) e
