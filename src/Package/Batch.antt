-- ===== src/Package/Batch.antt =====
-- The failure of `batchCreate` of
-- libraries/dbal/production/src/entities/package/batch/batch_packages.hpp.
use dbal.Prelude.{
  String, ◌<>◌, subst, ◌≡◌, refl, ap, ap₂, ◌∙◌, ◌⊎◌, Bool, true, false, ◌||◌, none, List, [], ◌∷◌,
  ◌++◌, Option-cases, Bool-cases, inl, inr, eq_iff, str_eq, arith, if◌then◌else◌,
}
use dbal.Map.{Map, lookup, not-contains, lookup-insert, lookup-erase, contains}
use dbal.Map.Order.{map_ext}
use dbal.Result.{Error, ok, err, reject_if, conflict, validation_error}
use dbal.Types.{Timestamp, InstalledPackage, CreatePackageInput}
use dbal.Store.{InMemoryStore}
use dbal.Validation.{package_key, is_valid_package_id, is_valid_semver}
use dbal.Package.{
  create, new_package, add_package, with_packages, undo_one, undo, create_each, batch_create,
}
use dbal.Package.Invariant.{
  IsValid, drop_package-IsValid, add_package-IsValid, id_of_key, free_of_key,
}

elem : String → List String → Bool
elem k [] = false
elem k (i ∷ is) = str_eq i k || elem k is

key_free :
    (s : InMemoryStore) (id : String)
    → IsValid s
    → lookup id s.packages ≡ none
    → lookup id s.package_keys ≡ none
key_free s id v e = elim (Option-cases (lookup id s.package_keys)) [
  | inl n ↦ n
  | inr (i, q) ↦ let (p, held, same) = v.index.backward id i q in cc (id_of_key s v id i q)
]

-- `t` is `s` but for the packages, of which those in `gone` are no longer there.
record Undone (s t : InMemoryStore) (gone : String → Bool) : Type 0 where
  valid : IsValid t
  packages : (k : String) → lookup k t.packages ≡ (if gone k then none else lookup k s.packages)
  keys : (k : String) → lookup k t.package_keys ≡ (if gone k then none else lookup k s.package_keys)
  others :
      (m : Map InstalledPackage) (ks : Map String) → with_packages t m ks ≡ with_packages s m ks

undo_one-Undone :
    (s : InMemoryStore) (id : String) → IsValid s → Undone s (undo_one s id) (str_eq id)
unfolding undo_one
undo_one-Undone s id v = elim (Option-cases (lookup id s.packages)) [
  | inl e ↦
      rw (e, undo_one)
        (record {
          valid = v;
          packages = λ k. ground (arith, eq_iff id k);
          keys = λ k. ground (arith, eq_iff id k, key_free s id v e);
          others = λ m ks. refl;
        })
  | inr (p, e) ↦
      rw (e, undo_one)
        (record {
          valid = drop_package-IsValid s id p v e;
          packages = λ k. lookup-erase id k s.packages;
          keys = λ k.
              unfold package_key in
              (lookup-erase p.package_id k s.package_keys
                ∙ ap (λ i. if str_eq i k then none else lookup k s.package_keys) (v.own id p e));
          others = λ m ks. refl;
        })
]

undo-Undone :
    (s : InMemoryStore) (ids : List String) → IsValid s → Undone s (undo s ids) (λ k. elem k ids)
unfolding undo elem
undo-Undone s [] v = record {
  valid = v;
  packages = λ k. refl;
  keys = λ k. refl;
  others = λ m ks. refl;
}
undo-Undone s (id ∷ ids) v =
    let one = undo_one-Undone s id v in
    let rest = undo-Undone (undo_one s id) ids one.valid in
    record {
      valid = rest.valid;
      packages = λ k. ground (arith, rest.packages k, one.packages k);
      keys = λ k. ground (arith, rest.keys k, one.keys k);
      others = λ m ks. rest.others m ks ∙ one.others m ks;
    }

-- `t` is `s` with the packages of the ids in `created`, which were free.
record Grown (s t : InMemoryStore) (created : List String) : Type 0 where
  valid : IsValid t
  fresh :
      (k : String)
      → elem k created ≡ true
      → (lookup k s.packages ≡ none) × (lookup k s.package_keys ≡ none)
  kept :
      (k : String)
      → elem k created ≡ false
      → (lookup k t.packages ≡ lookup k s.packages)
        × (lookup k t.package_keys ≡ lookup k s.package_keys)
  others :
      (m : Map InstalledPackage) (ks : Map String) → with_packages t m ks ≡ with_packages s m ks

undo-Grown :
    (s t : InMemoryStore) (created : List String)
    → IsValid s
    → Grown s t created
    → undo t created ≡ s
undo-Grown s t created v g =
    let u = undo-Undone t created g.valid in
    let r = undo t created in
    let packages : r.packages ≡ s.packages =
      map_ext r.packages s.packages u.valid.ordered v.ordered
        λ k. ground (arith, u.packages k, g.fresh k, g.kept k) in
    let keys : r.package_keys ≡ s.package_keys =
      map_ext r.package_keys s.package_keys u.valid.keys_ordered v.keys_ordered
        λ k. ground (arith, u.keys k, g.fresh k, g.kept k) in
    u.others r.packages r.package_keys
    ∙ g.others r.packages r.package_keys
    ∙ ap₂ (with_packages s) packages keys

elem-append : (k i : String) (is : List String) → elem k (is ++ i ∷ []) ≡ (elem k is || str_eq i k)
unfolding elem
elem-append k i [] = ground arith
elem-append k i (j ∷ is) = ground (arith, elem-append k i is)

add_package-Grown :
    (s t : InMemoryStore) (created : List String) (p : InstalledPackage)
    → Grown s t created
    → lookup (package_key p.package_id) t.package_keys ≡ none
    → Grown s (add_package t p) (created ++ p.package_id ∷ [])
unfolding package_key
add_package-Grown s t created p g free = record {
  valid = add_package-IsValid t p g.valid free;
  fresh = λ k e. ground (
    arith,
    elem-append k p.package_id created,
    g.fresh k,
    g.kept k,
    eq_iff p.package_id k,
    free_of_key t g.valid p.package_id free,
  );
  kept = λ k e. ground (
    arith,
    elem-append k p.package_id created,
    g.kept k,
    lookup-insert p.package_id k p t.packages,
    lookup-insert p.package_id k p.package_id t.package_keys,
  );
  others = g.others;
}

-- `create` fails and changes nothing, or adds a package under a free key.
pub create_cases :
    (now : Timestamp) (t : InMemoryStore) (input : CreatePackageInput)
    → ((e : Error) × (create now t input ≡ (err e, t)))
      ⊎ ((lookup (package_key input.package_id) t.package_keys ≡ none)
          × (create now t input
              ≡ (ok (new_package now input), add_package t (new_package now input))))
unfolding create reject_if
create_cases now t input = elim (Bool-cases (is_valid_package_id input.package_id)) [
  | inl a ↦ elim (Bool-cases (is_valid_semver input.version)) [
    | inl b ↦ elim (Bool-cases (contains (package_key input.package_id) t.package_keys)) [
      | inl c ↦
          inl
            (conflict ("Package ID already exists: " <> package_key input.package_id), rw (a, b, c))
      | inr c ↦ inr (not-contains _ _ c, rw (a, b, c))
    ]
    | inr b ↦ inl (validation_error "Version must be valid semver", rw (a, b))
  ]
  | inr a ↦ inl (validation_error "Package ID must be 1-255 characters", rw a)
]

create_each-err :
    (s t : InMemoryStore) (inputs : List (Timestamp × CreatePackageInput)) (created : List String)
    → IsValid s
    → Grown s t created
    → {e : Error} {s' : InMemoryStore} → create_each inputs created t ≡ (err e, s')
    → s' ≡ s
unfolding create_each
create_each-err s t [] created v g h = cc
create_each-err s t ((now, input) ∷ inputs) created v g {e = f} {s' = s'} h =
    elim (create_cases now t input) [
      | inl (e, q) ↦ ground (arith, undo-Grown s t created v g)
      | inr (free, q) ↦
          create_each-err s (add_package t (new_package now input)) inputs
            (created ++ input.package_id ∷ []) v
            (add_package-Grown s t created (new_package now input) g free)
            (subst
              (λ r.
                elim r.0 [
                  | err e ↦ (err e, undo r.1 created)
                  | ok pkg ↦ create_each inputs (created ++ pkg.package_id ∷ []) r.1
                ]
                ≡ (err f, s'))
              q h)
    ]

-- A batch that fails leaves the store as it was.
pub batch_create-atomic :
    (s : InMemoryStore) (inputs : List (Timestamp × CreatePackageInput)) {e : Error}
    {s' : InMemoryStore}
    → IsValid s
    → batch_create s inputs ≡ (err e, s')
    → s' ≡ s
unfolding batch_create elem
batch_create-atomic s inputs v h =
    create_each-err s s inputs [] v
      (record { valid = v; fresh = λ k e. cc; kept = λ k e. (refl, refl); others = λ m ks. refl }) h
