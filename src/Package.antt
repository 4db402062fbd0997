-- ===== src/Package.antt =====
-- libraries/dbal/production/src/entities/package: installed packages of the in-memory store, kept
-- under their package id, with an index by package key. `now` is the reading of the system clock.
pub mod Invariant
pub mod Frame
pub mod Batch
pub mod Created
use dbal.Prelude.{
  ℕ, suc, String, ◌<>◌, Bool, true, not, ◌&&◌, none, some, List, [], ◌∷◌, ◌++◌, is_empty, value_or,
  or_else, ltb, length, if◌then◌else◌,
}
use dbal.Map.{Map, lookup, insert, erase, contains, values, str_lt}
use dbal.Result.{Result, ok, err, validation_error, not_found, conflict, reject_if, find_or}
use dbal.Types.{
  Timestamp, InstalledPackage, CreatePackageInput, UpdatePackageInput, UpdatePackageBatchItem,
  ListOptions,
}
use dbal.Store.{InMemoryStore}
use dbal.Validation.{is_valid_package_id, is_valid_semver, package_key}
use dbal.Listing.{
  Outcome, sort_by, paginate, filter_list, matches_filter, matches_optional, matches_flag,
}

abbrev pub with_packages : InMemoryStore → Map InstalledPackage → Map String → InMemoryStore
with_packages s packages keys = record s {
  contents = record s.contents { packages = packages; package_keys = keys };
}

abbrev pub new_package : Timestamp → CreatePackageInput → InstalledPackage
new_package now input = record {
  package_id = input.package_id;
  tenant_id = input.tenant_id;
  installed_at = value_or input.installed_at now;
  version = input.version;
  enabled = input.enabled;
}

abbrev pub add_package : InMemoryStore → InstalledPackage → InMemoryStore
add_package store pkg =
    with_packages store (insert pkg.package_id pkg store.packages)
      (insert (package_key pkg.package_id) pkg.package_id store.package_keys)

unfoldable pub create :
    Timestamp → InMemoryStore → CreatePackageInput → Result InstalledPackage × InMemoryStore
create now store input =
    reject_if (not (is_valid_package_id input.package_id))
      (validation_error "Package ID must be 1-255 characters") store
      (reject_if (not (is_valid_semver input.version))
        (validation_error "Version must be valid semver") store
        (reject_if (contains (package_key input.package_id) store.package_keys)
          (conflict ("Package ID already exists: " <> package_key input.package_id)) store
          (ok (new_package now input), add_package store (new_package now input))))

-- `package_keys.erase(packageKey(it->second.packageId)); packages.erase(it)`.
abbrev pub drop_package : InMemoryStore → String → InstalledPackage → InMemoryStore
drop_package store id pkg =
    with_packages store (erase id store.packages)
      (erase (package_key pkg.package_id) store.package_keys)

unfoldable pub remove : InMemoryStore → String → Result Bool × InMemoryStore
remove store id = reject_if (is_empty id) (validation_error "Package ID cannot be empty") store (
    find_or (lookup id store.packages) (not_found ("Package not found: " <> id)) store
      λ pkg. (ok true, drop_package store id pkg))

unfoldable pub get : InMemoryStore → String → Result InstalledPackage × InMemoryStore
get store id = reject_if (is_empty id) (validation_error "Package ID cannot be empty") store (
    find_or (lookup id store.packages) (not_found ("Package not found: " <> id)) store
      λ pkg. (ok pkg, store))

unfoldable pub get_by_package_id : InMemoryStore → String → Result InstalledPackage × InMemoryStore
get_by_package_id store key =
    reject_if (is_empty key) (validation_error "Package key cannot be empty") store (
      find_or (lookup key store.package_keys) (not_found ("Package not found: " <> key)) store
        λ id. get store id)

abbrev pub set_fields : UpdatePackageInput → InstalledPackage → InstalledPackage
set_fields input pkg = record pkg {
  version = value_or input.version pkg.version;
  tenant_id = or_else input.tenant_id pkg.tenant_id;
  installed_at = value_or input.installed_at pkg.installed_at;
  enabled = value_or input.enabled pkg.enabled;
}

unfoldable pub update :
    InMemoryStore → String → UpdatePackageInput → Result InstalledPackage × InMemoryStore
update store id input =
    reject_if (is_empty id) (validation_error "Package ID cannot be empty") store (
      find_or (lookup id store.packages) (not_found ("Package not found: " <> id)) store λ pkg.
        reject_if (not (is_valid_semver (value_or input.version pkg.version)))
          (validation_error "Version must be valid semver") store
          (
            ok (set_fields input pkg),
            with_packages store (insert id (set_fields input pkg) store.packages)
                store.package_keys,
          ))

unfoldable pub package_matches : ListOptions → InstalledPackage → Bool
package_matches options pkg =
    matches_filter options "packageId" pkg.package_id
    && matches_filter options "version" pkg.version
    && matches_optional options "tenantId" pkg.tenant_id
    && matches_flag options "enabled" pkg.enabled

unfoldable pub sort_packages : ListOptions → List InstalledPackage → List InstalledPackage
sort_packages options packages =
    if contains "packageId" options.sort
    then sort_by (λ a b. str_lt a.package_id b.package_id) packages
    else if contains "installedAt" options.sort
    then sort_by (λ a b. ltb a.installed_at b.installed_at) packages
    else packages

unfoldable pub list : InMemoryStore → ListOptions → Outcome (List InstalledPackage)
list store options =
    paginate options.page options.limit
      (sort_packages options (filter_list (package_matches options) (values store.packages)))

-- The rollback of `batchCreate`, for one id.
unfoldable pub undo_one : InMemoryStore → String → InMemoryStore
undo_one store id = elim (lookup id store.packages) [
  | none ↦ store
  | some pkg ↦ drop_package store id pkg
]

unfoldable pub undo : InMemoryStore → List String → InMemoryStore
undo store [] = store
undo store (id ∷ ids) = undo (undo_one store id) ids

-- The loop of `batchCreate`, which an empty list ends with `Result<int>(0)` too: each input comes with the reading of the clock at its creation.
unfoldable pub create_each :
    List (Timestamp × CreatePackageInput) → List String → InMemoryStore → Result ℕ × InMemoryStore
create_each [] created store = (ok (length created), store)
create_each ((now, input) ∷ inputs) created store =
    let (result, left) = create now store input in
    elim result [
      | err e ↦ (err e, undo left created)
      | ok pkg ↦ create_each inputs (created ++ pkg.package_id ∷ []) left
    ]

unfoldable pub batch_create :
    InMemoryStore → List (Timestamp × CreatePackageInput) → Result ℕ × InMemoryStore
batch_create store inputs = create_each inputs [] store

unfoldable pub update_each :
    List UpdatePackageBatchItem → ℕ → InMemoryStore → Result ℕ × InMemoryStore
update_each [] updated store = (ok updated, store)
update_each (item ∷ items) updated store =
    let (result, left) = update store item.id item.changes in
    elim result [ err e ↦ (err e, left) | ok pkg ↦ update_each items (suc updated) left ]

unfoldable pub batch_update : InMemoryStore → List UpdatePackageBatchItem → Result ℕ × InMemoryStore
batch_update store items = update_each items 0 store

unfoldable pub remove_each : List String → ℕ → InMemoryStore → Result ℕ × InMemoryStore
remove_each [] deleted store = (ok deleted, store)
remove_each (id ∷ ids) deleted store =
    let (result, left) = remove store id in
    elim result [ err e ↦ (err e, left) | ok done ↦ remove_each ids (suc deleted) left ]

unfoldable pub batch_delete : InMemoryStore → List String → Result ℕ × InMemoryStore
batch_delete store ids = remove_each ids 0 store
