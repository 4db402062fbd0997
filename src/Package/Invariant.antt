-- ===== src/Package/Invariant.antt =====
-- The consistency of the packages, their ids and their index by key under the operations of
-- libraries/dbal/production/src/entities/package.
use dbal.Prelude.{String, ◌≡◌, refl, none, some, Option-cases, inl, inr, eq_iff, arith}
use dbal.Map.{Map, lookup, not-contains, lookup-insert, lookup-erase}
use dbal.Map.Order.{IsOrdered, insert-IsOrdered, erase-IsOrdered}
use dbal.Result.{Leaves, leaves, Leaves-reject_if, Leaves-find_or}
use dbal.Types.{Timestamp, InstalledPackage, CreatePackageInput, UpdatePackageInput}
use dbal.Store.{InMemoryStore}
use dbal.Store.Index.{IsIndexed, IsIndexed-insert, IsIndexed-erase, IsIndexed-replace}
use dbal.Validation.{package_key}
use dbal.Package.{
  create, remove, update, set_fields, new_package, add_package, drop_package, undo_one,
}

abbrev pub key_of : InstalledPackage → String
key_of p = package_key p.package_id

pub record IsConsistent (m : Map InstalledPackage) (keys : Map String) : Type 0 where
  pub index : IsIndexed key_of m keys
  -- A package stands under its own id.
  pub own : (i : String) (p : InstalledPackage) → lookup i m ≡ some p → p.package_id ≡ i
  pub ordered : IsOrdered m
  pub keys_ordered : IsOrdered keys

abbrev pub IsValid : InMemoryStore → Type 0
IsValid s = IsConsistent s.packages s.package_keys

-- A key leads to the package of that id.
pub id_of_key :
    (s : InMemoryStore) → IsValid s → (k i : String) → lookup k s.package_keys ≡ some i → i ≡ k
unfolding package_key
id_of_key s v k i e = let (p, held, same) = v.index.backward k i e in cc (v.own i p held)

-- So an id whose key is free is free.
pub free_of_key :
    (s : InMemoryStore)
    → IsValid s
    → (k : String) → lookup k s.package_keys ≡ none
    → lookup k s.packages ≡ none
unfolding package_key
free_of_key s v k e = elim (Option-cases (lookup k s.packages)) [
  | inl n ↦ n
  | inr (p, held) ↦ cc (v.own k p held, v.index.forward k p held)
]

pub add_package-IsValid :
    (s : InMemoryStore) (p : InstalledPackage)
    → IsValid s
    → lookup (key_of p) s.package_keys ≡ none
    → IsValid (add_package s p)
add_package-IsValid s p v free = record {
  index =
      IsIndexed-insert key_of v.index p.package_id p
        (free_of_key s v p.package_id (unfold package_key in free)) free;
  own = λ i q e.
      ground (arith, lookup-insert p.package_id i p s.packages, v.own i q, eq_iff p.package_id i);
  ordered = insert-IsOrdered _ p s.packages v.ordered;
  keys_ordered = insert-IsOrdered _ p.package_id s.package_keys v.keys_ordered;
}

pub create-IsValid :
    (now : Timestamp) (s : InMemoryStore) (input : CreatePackageInput)
    → IsValid s
    → Leaves IsValid (create now s input)
unfolding create
create-IsValid now s input v = Leaves-reject_if _ _ _ _ v λ _. Leaves-reject_if _ _ _ _ v λ _.
    Leaves-reject_if _ _ _ _ v
      λ free. leaves _ _ (add_package-IsValid s (new_package now input) v (not-contains _ _ free))

pub drop_package-IsValid :
    (s : InMemoryStore) (id : String) (p : InstalledPackage)
    → IsValid s
    → lookup id s.packages ≡ some p
    → IsValid (drop_package s id p)
drop_package-IsValid s id p v old = record {
  index = IsIndexed-erase key_of v.index id p old;
  own = λ i q e. v.own i q (ground (arith, lookup-erase id i s.packages));
  ordered = erase-IsOrdered id s.packages v.ordered;
  keys_ordered = erase-IsOrdered _ s.package_keys v.keys_ordered;
}

pub remove-IsValid : (s : InMemoryStore) (id : String) → IsValid s → Leaves IsValid (remove s id)
unfolding remove
remove-IsValid s id v =
    Leaves-reject_if _ _ _ _ v
      λ _. Leaves-find_or _ _ _ _ v λ p e. leaves _ _ (drop_package-IsValid s id p v e)

pub update-IsValid :
    (s : InMemoryStore) (id : String) (input : UpdatePackageInput)
    → IsValid s
    → Leaves IsValid (update s id input)
unfolding update
update-IsValid s id input v = Leaves-reject_if _ _ _ _ v λ _. Leaves-find_or _ _ _ _ v λ p e.
    Leaves-reject_if _ _ _ _ v λ _. leaves _ _ (record {
      index = IsIndexed-replace key_of v.index id p (set_fields input p) e refl;
      own = λ i q h. ground (
        arith,
        lookup-insert id i (set_fields input p) s.packages,
        v.own i q,
        v.own id p e,
        eq_iff id i,
      );
      ordered = insert-IsOrdered id (set_fields input p) s.packages v.ordered;
      keys_ordered = v.keys_ordered;
    })

pub undo_one-IsValid : (s : InMemoryStore) (id : String) → IsValid s → IsValid (undo_one s id)
unfolding undo_one
undo_one-IsValid s id v = elim (Option-cases (lookup id s.packages)) [
  | inl e ↦ rw (e, undo_one) v
  | inr (p, e) ↦ rw (e, undo_one) (drop_package-IsValid s id p v e)
]
