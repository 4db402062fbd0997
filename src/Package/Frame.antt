-- ===== src/Package/Frame.antt =====
-- What the operations of libraries/dbal/production/src/entities/package
-- write: a property that the writes of the packages keep, the operations keep.
use dbal.Prelude.{ℕ, suc, String, List, [], ◌∷◌, ◌++◌, Option-cases, inl, inr}
use dbal.Map.{Map, lookup}
use dbal.Result.{err, Leaves, leaves, Leaves-chain, leaves_rules}
use dbal.Types.{
  Timestamp, InstalledPackage, CreatePackageInput, UpdatePackageInput, UpdatePackageBatchItem,
}
use dbal.Store.{InMemoryStore}
use dbal.Package.{
  create, remove, update, undo_one, undo, create_each, update_each, remove_each, with_packages,
}

module _ (P : InMemoryStore → Type 0)
    (write : (s : InMemoryStore) (m : Map InstalledPackage) (ix : Map String)
      → P s
      → P (with_packages s m ix)) where
  pub create-keeps :
      (now : Timestamp) (s : InMemoryStore) (input : CreatePackageInput)
      → P s
      → Leaves P (create now s input)
  unfolding create
  create-keeps now s input h = search (leaves_rules, write) depth 10

  pub remove-keeps : (s : InMemoryStore) (id : String) → P s → Leaves P (remove s id)
  unfolding remove
  remove-keeps s id h = search (leaves_rules, write) depth 8

  pub update-keeps :
      (s : InMemoryStore) (id : String) (input : UpdatePackageInput)
      → P s
      → Leaves P (update s id input)
  unfolding update
  update-keeps s id input h = search (leaves_rules, write) depth 10

  pub undo-keeps : (s : InMemoryStore) (ids : List String) → P s → P (undo s ids)
  unfolding undo undo_one
  undo-keeps s [] h = h
  undo-keeps s (id ∷ ids) h =
      undo-keeps (undo_one s id) ids (elim (Option-cases (lookup id s.packages)) [
        | inl e ↦ rw (e, undo_one) h
        | inr (a, e) ↦ rw (e, undo_one) (write s _ _ h)
      ])

-- The batches keep what their single steps keep.
module _ {P : InMemoryStore → Type 0} where
  pub undo_induction :
      ((s : InMemoryStore) (id : String) → P s → P (undo_one s id))
      → (s : InMemoryStore) (ids : List String) → P s
      → P (undo s ids)
  unfolding undo
  undo_induction one s [] h = h
  undo_induction one s (id ∷ ids) h = undo_induction one (undo_one s id) ids (one s id h)

  pub create_each_induction :
      ((now : Timestamp) (s : InMemoryStore) (input : CreatePackageInput)
        → P s
        → Leaves P (create now s input))
      → ((s : InMemoryStore) (ids : List String) → P s → P (undo s ids))
      → (inputs : List (Timestamp × CreatePackageInput)) (created : List String) (s : InMemoryStore)
      → P s
      → Leaves P (create_each inputs created s)
  unfolding create_each
  create_each_induction one back [] created s h = leaves _ _ h
  create_each_induction one back ((now, input) ∷ inputs) created s h =
      Leaves-chain (create now s input) (λ e t. (err e, undo t created))
        (λ pkg t. create_each inputs (created ++ pkg.package_id ∷ []) t) (one now s input h)
        (λ e t k. leaves _ _ (back t created k))
        (λ pkg t k. create_each_induction one back inputs (created ++ pkg.package_id ∷ []) t k)

  pub update_each_induction :
      ((s : InMemoryStore) (id : String) (input : UpdatePackageInput)
        → P s
        → Leaves P (update s id input))
      → (items : List UpdatePackageBatchItem) (n : ℕ) (s : InMemoryStore) → P s
      → Leaves P (update_each items n s)
  unfolding update_each
  update_each_induction one [] n s h = leaves _ _ h
  update_each_induction one (item ∷ items) n s h =
      Leaves-chain (update s item.id item.changes) (λ e t. (err e, t))
        (λ pkg t. update_each items (suc n) t) (one s item.id item.changes h)
        (λ e t k. leaves _ _ k) (λ pkg t k. update_each_induction one items (suc n) t k)

  pub remove_each_induction :
      ((s : InMemoryStore) (id : String) → P s → Leaves P (remove s id))
      → (ids : List String) (n : ℕ) (s : InMemoryStore) → P s
      → Leaves P (remove_each ids n s)
  unfolding remove_each
  remove_each_induction one [] n s h = leaves _ _ h
  remove_each_induction one (id ∷ ids) n s h =
      Leaves-chain (remove s id) (λ e t. (err e, t)) (λ done t. remove_each ids (suc n) t)
        (one s id h) (λ e t k. leaves _ _ k) (λ done t k. remove_each_induction one ids (suc n) t k)
