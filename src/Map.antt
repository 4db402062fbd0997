-- ===== src/Map.antt =====
-- std::map<std::string, V>: its entries in the order of their keys, in which the program iterates.
pub mod Order
use Prim.Native.Nat.{Ordering}
use Prim.Native.String.{compare}
use dbal.Prelude.{
  String, ◌≡◌, refl, Bool, true, false, Option, none, some, List, [], ◌∷◌, arith, str_eq, eq_iff,
  eq_refl, not, ◌⊎◌, inl, inr, if◌then◌else◌,
}

abbrev pub Map {ℓ} : Type ℓ → Type ℓ
Map V = List (String × V)

abbrev pub str_lt : String → String → Bool
str_lt a b = elim (compare a b) [ Ordering.lt ↦ true | _ ↦ false ]

module _ {ℓ} {V : Type ℓ} where
  -- `find`; `none` is `end()`.
  unfoldable pub lookup : String → Map V → Option V
  lookup k [] = none
  lookup k ((j, v) ∷ m) = if str_eq j k then some v else lookup k m

  -- `m[k] = v`.
  unfoldable pub insert : String → V → Map V → Map V
  insert k v [] = (k, v) ∷ []
  insert k v ((j, w) ∷ m) =
      if str_eq j k
      then (k, v) ∷ m
      else if str_lt k j
      then (k, v) ∷ (j, w) ∷ m
      else (j, w) ∷ insert k v m

  unfoldable pub erase : String → Map V → Map V
  erase k [] = []
  erase k ((j, v) ∷ m) = let rest = erase k m in if str_eq j k then rest else (j, v) ∷ rest

  unfoldable pub contains : String → Map V → Bool
  contains k m = elim (lookup k m) [ none ↦ false | some v ↦ true ]

  -- What a range-based `for` visits.
  unfoldable pub values : Map V → List V
  values [] = []
  values ((k, v) ∷ m) = v ∷ values m

  pub lookup-insert :
      (k j : String) (v : V) (m : Map V)
      → lookup j (insert k v m) ≡ (if str_eq k j then some v else lookup j m)
  unfolding lookup insert
  lookup-insert key other new [] = refl
  lookup-insert key other new ((at, old) ∷ rest) =
      ground
        (arith, lookup-insert key other new rest, eq_iff key other, eq_iff at other, eq_iff at key)

  pub lookup-erase :
      (k j : String) (m : Map V) → lookup j (erase k m) ≡ (if str_eq k j then none else lookup j m)
  unfolding lookup erase
  lookup-erase k j [] = ground arith
  lookup-erase k j ((i, v) ∷ m) =
      ground (arith, lookup-erase k j m, eq_iff i k, eq_iff i j, eq_iff k j)

  pub lookup-insert_self : (k : String) (v : V) (m : Map V) → lookup k (insert k v m) ≡ some v
  lookup-insert_self k v m = simp (lookup-insert, eq_refl)

  pub not-contains : (k : String) (m : Map V) → contains k m ≡ false → lookup k m ≡ none
  unfolding contains
  not-contains k m h = ground arith

-- Of an index: `it != end() && it->second != id`, the key belongs to another entity.
abbrev pub taken : Option String → String → Bool
taken none id = false
taken (some owner) id = not (str_eq owner id)

pub not-taken : (o : Option String) (id : String) → taken o id ≡ false → (o ≡ none) ⊎ (o ≡ some id)
not-taken none id h = inl refl
not-taken (some owner) id h = inr (ground (arith, eq_iff owner id))
