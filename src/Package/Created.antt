-- ===== src/Package/Created.antt =====
-- The success of `batchCreate` of
-- libraries/dbal/production/src/entities/package/batch/batch_packages.hpp.
use dbal.Prelude.{
  ℕ, suc, ◌+◌, String, ◌≡◌, refl, sym, subst, none, some, List, [], ◌∷◌, ◌++◌, length, Member, inl,
  inr, arith, eq_iff,
}
use dbal.Map.{lookup, lookup-insert, lookup-insert_self}
use dbal.Result.{Result, ok, err}
use dbal.Types.{Timestamp, InstalledPackage, CreatePackageInput}
use dbal.Store.{InMemoryStore}
use dbal.Validation.{package_key}
use dbal.Package.{new_package, add_package, undo, create_each, batch_create}
use dbal.Package.Invariant.{IsValid, add_package-IsValid, free_of_key}
use dbal.Package.Batch.{create_cases}

length-append_one : (xs : List String) (x : String) → length (xs ++ x ∷ []) ≡ suc (length xs)
length-append_one [] x = refl
length-append_one (y ∷ xs) x = omega (arith, length-append_one xs x)

-- The rest of a loop whose first input is created.
abbrev after :
    List (Timestamp × CreatePackageInput)
    → List String
    → Result InstalledPackage × InMemoryStore
    → Result ℕ × InMemoryStore
after inputs created r = elim r.0 [
  | err e ↦ (err e, undo r.1 created)
  | ok pkg ↦ create_each inputs (created ++ pkg.package_id ∷ []) r.1
]

-- A loop that succeeds has created its first input.
create_each-step :
    (t : InMemoryStore) (now : Timestamp) (input : CreatePackageInput)
    (inputs : List (Timestamp × CreatePackageInput)) (created : List String) {n : ℕ}
    {s' : InMemoryStore}
    → create_each ((now, input) ∷ inputs) created t ≡ (ok n, s')
    → (lookup (package_key input.package_id) t.package_keys ≡ none)
      × (create_each inputs
            (created ++ input.package_id ∷ [])
            (add_package t (new_package now input))
          ≡ (ok n, s'))
unfolding create_each
create_each-step t now input inputs created {n} {s'} h = elim (create_cases now t input) [
  | inl (e, q) ↦ absurd (cc (subst (λ r. after inputs created r ≡ (ok n, s')) q h))
  | inr (free, q) ↦ (free, subst (λ r. after inputs created r ≡ (ok n, s')) q h)
]

create_each-count :
    (t : InMemoryStore) (inputs : List (Timestamp × CreatePackageInput)) (created : List String)
    {n : ℕ} {s' : InMemoryStore}
    → create_each inputs created t ≡ (ok n, s')
    → n ≡ length created + length inputs
create_each-count t [] created {n} h =
    unfold create_each in (let e : length created ≡ n = cc in omega arith)
create_each-count t ((now, input) ∷ inputs) created h =
    let (free, k) = create_each-step t now input inputs created h in
    omega (
      arith,
      create_each-count (add_package t (new_package now input)) inputs
          (created ++ input.package_id ∷ []) k,
      length-append_one created input.package_id,
    )

-- What a store holds it still holds after the loop.
create_each-holds :
    (t : InMemoryStore) (inputs : List (Timestamp × CreatePackageInput)) (created : List String)
    (id : String) (p : InstalledPackage) {n : ℕ} {s' : InMemoryStore}
    → IsValid t
    → create_each inputs created t ≡ (ok n, s')
    → lookup id t.packages ≡ some p
    → lookup id s'.packages ≡ some p
create_each-holds t [] created id p {n} {s'} v h e =
    unfold create_each in (let same : t ≡ s' = cc in rw (← same) e)
create_each-holds t ((now, input) ∷ inputs) created id p v h e =
    let (free, k) = create_each-step t now input inputs created h in
    let q : InstalledPackage = new_package now input in
    create_each-holds (add_package t q) inputs (created ++ input.package_id ∷ []) id p
      (add_package-IsValid t q v free) k
      (ground (
        arith,
        lookup-insert input.package_id id q t.packages,
        eq_iff input.package_id id,
        free_of_key t v input.package_id (unfold package_key in free),
      ))

create_each-creates :
    (t : InMemoryStore) (inputs : List (Timestamp × CreatePackageInput)) (created : List String)
    (now : Timestamp) (input : CreatePackageInput) {n : ℕ} {s' : InMemoryStore}
    → IsValid t
    → create_each inputs created t ≡ (ok n, s')
    → Member (now, input) inputs
    → lookup input.package_id s'.packages ≡ some (new_package now input)
create_each-creates t [] created now input v h m = elim m [ ]
create_each-creates t ((now', first) ∷ inputs) created now input {n} {s'} v h m =
    let (free, k) = create_each-step t now' first inputs created h in
    let q : InstalledPackage = new_package now' first in
    let w = add_package-IsValid t q v free in
    elim m [
      | inl e ↦
          subst
            (λ (x : Timestamp × CreatePackageInput).
              lookup x.1.package_id s'.packages ≡ some (new_package x.0 x.1))
            (sym e)
            (create_each-holds (add_package t q) inputs (created ++ first.package_id ∷ [])
              first.package_id q w k (lookup-insert_self first.package_id q t.packages))
      | inr r ↦
          create_each-creates (add_package t q) inputs (created ++ first.package_id ∷ []) now input
            w k r
    ]

-- A batch that succeeds on a consistent store returns the number of its inputs, and each input is
-- installed under its package id with the fields that it gives.
pub batch_create-creates :
    (s : InMemoryStore) (inputs : List (Timestamp × CreatePackageInput)) (now : Timestamp)
    (input : CreatePackageInput) {n : ℕ} {s' : InMemoryStore}
    → IsValid s
    → batch_create s inputs ≡ (ok n, s')
    → Member (now, input) inputs
    → (n ≡ length inputs) × (lookup input.package_id s'.packages ≡ some (new_package now input))
unfolding batch_create
batch_create-creates s inputs now input v h m =
    let e : length {A = String} [] ≡ 0 = refl in
    (
      omega (arith, create_each-count s inputs [] h),
      create_each-creates s inputs [] now input v h m,
    )
