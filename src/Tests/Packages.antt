-- ===== src/Tests/Packages.antt =====
-- The theorems on packages at concrete stores.
use dbal.Prelude.{ℕ, ◌≡◌, refl, true, none, some, List, [], ◌∷◌, inl, inr, length}
use dbal.Map.{lookup, insert, erase, contains}
use dbal.Result.{ok, err, Error, conflict, reject_if}
use dbal.Types.{Timestamp, CreatePackageInput}
use dbal.Store.{InMemoryStore, init}
use dbal.Validation.{is_valid_package_id, is_valid_semver, package_key}
use dbal.Package
use dbal.Package.Batch.{batch_create-atomic}
use dbal.Package.Created.{batch_create-creates}
use dbal.System.Invariant.{init-IsValid}

abbrev forum : CreatePackageInput
forum = record {
  package_id = "forum";
  tenant_id = none;
  installed_at = none;
  version = "1.0.0";
  enabled = true;
}

abbrev chat : CreatePackageInput
chat = record forum { package_id = "chat"; version = "2.10.3" }

abbrev two_packages : List (Timestamp × CreatePackageInput)
two_packages = (5, forum) ∷ (6, chat) ∷ []

-- The second forum is refused, after the first is created.
abbrev twice : List (Timestamp × CreatePackageInput)
twice = (5, forum) ∷ (6, forum) ∷ []

abbrev refused : Error
refused = conflict "Package ID already exists: forum"

abbrev after_twice : InMemoryStore
after_twice = (Package.batch_create init twice).1

batch_twice : Package.batch_create init twice ≡ (err refused, after_twice)
unfolding Package.batch_create Package.create_each Package.create Package.undo Package.undo_one
    is_valid_package_id is_valid_semver package_key reject_if contains lookup insert erase
batch_twice = refl

batch_create-atomic_example : after_twice ≡ init
batch_create-atomic_example =
    batch_create-atomic init twice {e = refused} {s' = after_twice} init-IsValid.packages
      batch_twice

abbrev after_two : InMemoryStore
after_two = (Package.batch_create init two_packages).1

batch_two : Package.batch_create init two_packages ≡ (ok 2, after_two)
unfolding Package.batch_create Package.create_each Package.create is_valid_package_id
    is_valid_semver package_key reject_if contains lookup insert
batch_two = refl

batch_create-creates_example :
    (◌≡◌ {A = ℕ} 2 (length two_packages))
    × (lookup chat.package_id after_two.packages ≡ some (Package.new_package 6 chat))
batch_create-creates_example =
    batch_create-creates init two_packages 6 chat {n = 2} {s' = after_two} init-IsValid.packages
      batch_two (inr (inl refl))
