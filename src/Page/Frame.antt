-- ===== src/Page/Frame.antt =====
-- What the operations of libraries/dbal/production/src/entities/page
-- write: a property that the writes of the pages keep, the operations keep.
use dbal.Prelude.{String}
use dbal.Map.{Map}
use dbal.Result.{Leaves, leaves_rules}
use dbal.Types.{Timestamp, PageConfig, CreatePageInput, UpdatePageInput}
use dbal.Store.{InMemoryStore}
use dbal.Page.{
  create, remove, update, update_path, update_title, update_texts, update_level, update_rest,
  with_pages, count_page,
}

module _ (P : InMemoryStore → Type 0)
    (write : (s : InMemoryStore) (m : Map PageConfig) (ix : Map String)
      → P s
      → P (with_pages s m ix)) where
  pub remove-keeps : (s : InMemoryStore) (id : String) → P s → Leaves P (remove s id)
  unfolding remove
  remove-keeps s id h = search (leaves_rules, write) depth 8

  module _ (id : String) (input : UpdatePageInput) where
    update_level-keeps :
        (s : InMemoryStore) (a : PageConfig) → P s → Leaves P (update_level s id a input)
    unfolding update_level update_rest
    update_level-keeps s a h = search (leaves_rules, write) depth 10

    update_title-keeps :
        (s : InMemoryStore) (a : PageConfig) → P s → Leaves P (update_title s id a input)
    unfolding update_title update_texts
    update_title-keeps s a h = search (leaves_rules, write, update_level-keeps) depth 10

    update_path-keeps :
        (s : InMemoryStore) (a : PageConfig) → P s → Leaves P (update_path s id a input)
    unfolding update_path
    update_path-keeps s a h = search (leaves_rules, write, update_title-keeps) depth 10

  pub update-keeps :
      (s : InMemoryStore) (id : String) (input : UpdatePageInput)
      → P s
      → Leaves P (update s id input)
  unfolding update
  update-keeps s id input h = search (leaves_rules, update_path-keeps) depth 8

module _ (P : InMemoryStore → Type 0)
    (write : (s : InMemoryStore) (m : Map PageConfig) (ix : Map String)
      → P s
      → P (with_pages s m ix))
    (count : (s : InMemoryStore) → P s → P (count_page s)) where
  pub create-keeps :
      (now : Timestamp) (s : InMemoryStore) (input : CreatePageInput)
      → P s
      → Leaves P (create now s input)
  unfolding create
  create-keeps now s input h = search (leaves_rules, write, count) depth 12
