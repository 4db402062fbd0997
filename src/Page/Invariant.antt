-- ===== src/Page/Invariant.antt =====
-- The consistency of the pages, their ids and their index by path under the operations of
-- libraries/dbal/production/src/entities/page.
use dbal.Prelude.{suc, ◌<◌, String, ◌≡◌, refl, some}
use dbal.Map.{lookup, not-contains, lookup-insert_self}
use dbal.Result.{Leaves, leaves, Leaves-reject_if, Leaves-find_or, Leaves-when_set}
use dbal.Types.{Timestamp, PageConfig, CreatePageInput, UpdatePageInput}
use dbal.Store.{InMemoryStore}
use dbal.Store.Ids.{fits_buffer, int_end}
use dbal.Store.Table.{IsTable, IsTable-insert, IsTable-erase, IsTable-replace, IsTable-rekey}
use dbal.Page.{
  create, remove, update, update_path, update_title, update_texts, update_level, update_rest,
  new_page, set_rest, set_texts, put_page, repath,
}

abbrev pub path_of : PageConfig → String
path_of p = p.path

abbrev pub id_of : PageConfig → String
id_of p = p.id

abbrev pub IsValid : InMemoryStore → Type 0
IsValid s = IsTable "page" path_of id_of s.page_counter s.pages s.page_paths

pub create-IsValid :
    (now : Timestamp) (s : InMemoryStore) (input : CreatePageInput)
    → IsValid s
    → suc s.page_counter < int_end
    → Leaves IsValid (create now s input)
unfolding create
create-IsValid now s input v small = Leaves-reject_if _ _ _ _ v λ _. Leaves-reject_if _ _ _ _ v λ _.
    Leaves-reject_if _ _ _ _ v λ _. Leaves-reject_if _ _ _ _ v λ free. leaves _ _ (
      IsTable-insert "page" path_of id_of v (new_page now s input) (unfold fits_buffer in refl)
        small refl (not-contains _ _ free))

pub remove-IsValid : (s : InMemoryStore) (id : String) → IsValid s → Leaves IsValid (remove s id)
unfolding remove
remove-IsValid s id v =
    Leaves-reject_if _ _ _ _ v
      λ _. Leaves-find_or _ _ _ _ v λ p e. leaves _ _ (IsTable-erase "page" path_of id_of v id p e)

-- In the stages of `update` the store holds `a` under `id`.
module _ (id : String) (input : UpdatePageInput) where
  put_page-IsValid :
      (s : InMemoryStore) (a b : PageConfig)
      → IsValid s
      → lookup id s.pages ≡ some a
      → b.id ≡ a.id
      → b.path ≡ a.path
      → IsValid (put_page s id b)
  put_page-IsValid s a b v held own same =
      IsTable-replace "page" path_of id_of v id a b held own same

  held_after_put : (s : InMemoryStore) (b : PageConfig) → lookup id (put_page s id b).pages ≡ some b
  held_after_put s b = lookup-insert_self id b s.pages

  update_level-IsValid :
      (s : InMemoryStore) (a : PageConfig)
      → IsValid s
      → lookup id s.pages ≡ some a
      → Leaves IsValid (update_level s id a input)
  unfolding update_level update_rest
  update_level-IsValid s a v held =
      Leaves-when_set _ _ _ (leaves _ _ (put_page-IsValid s a (set_rest input a) v held refl refl))
        λ level _. Leaves-reject_if _ _ _ _ v λ _.
          let b : PageConfig = record a { level = level } in
          leaves _ _ (
            put_page-IsValid (put_page s id b) b (set_rest input b)
              (put_page-IsValid s a b v held refl refl) (held_after_put s b) refl refl)

  update_texts-IsValid :
      (s : InMemoryStore) (a : PageConfig)
      → IsValid s
      → lookup id s.pages ≡ some a
      → Leaves IsValid (update_texts s id a input)
  unfolding update_texts
  update_texts-IsValid s a v held =
      update_level-IsValid (put_page s id (set_texts input a)) (set_texts input a)
        (put_page-IsValid s a (set_texts input a) v held refl refl)
        (held_after_put s (set_texts input a))

  update_title-IsValid :
      (s : InMemoryStore) (a : PageConfig)
      → IsValid s
      → lookup id s.pages ≡ some a
      → Leaves IsValid (update_title s id a input)
  unfolding update_title
  update_title-IsValid s a v held =
      Leaves-when_set _ _ _ (update_texts-IsValid s a v held) λ title _.
        Leaves-reject_if _ _ _ _ v λ _.
          let b : PageConfig = record a { title = title } in
          update_texts-IsValid (put_page s id b) b (put_page-IsValid s a b v held refl refl)
            (held_after_put s b)

  update_path-IsValid :
      (s : InMemoryStore) (a : PageConfig)
      → IsValid s
      → lookup id s.pages ≡ some a
      → Leaves IsValid (update_path s id a input)
  unfolding update_path
  update_path-IsValid s a v held = Leaves-when_set _ _ _ (update_title-IsValid s a v held) λ path _.
      Leaves-reject_if _ _ _ _ v λ _. Leaves-reject_if _ _ _ _ v λ free.
        let b : PageConfig = record a { path = path } in
        update_title-IsValid (repath s id a path) b
          (IsTable-rekey "page" path_of id_of v id a b held refl free) (held_after_put s b)

pub update-IsValid :
    (s : InMemoryStore) (id : String) (input : UpdatePageInput)
    → IsValid s
    → Leaves IsValid (update s id input)
unfolding update
update-IsValid s id input v =
    Leaves-reject_if _ _ _ _ v
      λ _. Leaves-find_or _ _ _ _ v (λ a e. update_path-IsValid id input s a v e)
