-- ===== src/Listing.antt =====
-- What the `list` operations of libraries/dbal/production/src/entities share: the equality filter,
-- `std::sort` and the page of the result.
pub mod Sorting
pub mod Pages
pub mod Texts
use mathlib.Core.Option
use dbal.Prelude.{
  ℕ, ◌+◌, ◌-◌, ◌*◌, ◌%◌, ◌==◌, map, String, Bool, true, false, not, Option, none, some, List, [],
  ◌∷◌, str_eq, leb, ltb, length, take, drop, codes, is_empty, ◌&&◌, ◌||◌, if◌then◌else◌,
}
use dbal.Prelude.Int.{ℤ, pos, negsuc, ◌+ℤ◌, ◌-ℤ◌, ◌*ℤ◌, ltb_ℤ, min_ℤ}
use dbal.Map.{lookup}
use dbal.Store.Ids.{int_end}
use dbal.Types.{ListOptions}

-- How a call ends: it returns, throws a standard exception, or does what C++ leaves undefined.
pub data Outcome {ℓ} (A : Type ℓ) : Type ℓ where
  done : A → Outcome A
  thrown undefined : Outcome A

-- `filter.find(name) == end() || value == filter.at(name)`.
unfoldable pub matches_filter : ListOptions → String → String → Bool
matches_filter options name value = elim (lookup name options.filters) [
  | none ↦ true
  | some wanted ↦ str_eq value wanted
]

-- The same for an optional field, which must be there.
unfoldable pub matches_optional : ListOptions → String → Option String → Bool
matches_optional options name value = elim (lookup name options.filters) [
  | none ↦ true
  | some wanted ↦ elim value [ none ↦ false | some v ↦ str_eq v wanted ]
]

-- A flag is compared with whether the filter says "true".
unfoldable pub matches_flag : ListOptions → String → Bool → Bool
matches_flag options name value = elim (lookup name options.filters) [
  | none ↦ true
  | some wanted ↦ if str_eq wanted "true" then value else not value
]

-- An `int` operation that overflows is undefined.
abbrev pub in_int : ℤ → Bool
in_int (pos n) = ltb n int_end
in_int (negsuc n) = ltb n int_end

-- `static_cast<int>` of a size, which keeps its last 32 bits.
unfoldable pub int_of : ℕ → ℤ
int_of n =
    let low = n % (2 * int_end) in if ltb low int_end then pos low else pos low -ℤ pos (2 * int_end)

module _ {ℓ} {A : Type ℓ} where
  unfoldable pub filter_list : (A → Bool) → List A → List A
  filter_list p [] = []
  filter_list p (x ∷ xs) = let rest = filter_list p xs in if p x then x ∷ rest else rest

  unfoldable pub insert_by : (A → A → Bool) → A → List A → List A
  insert_by less x [] = x ∷ []
  insert_by less x (y ∷ ys) = if less y x then y ∷ insert_by less x ys else x ∷ y ∷ ys

  -- Of the orders that `std::sort` may give to equal elements, the stable one.
  unfoldable pub sort_by : (A → A → Bool) → List A → List A
  unfolding insert_by
  sort_by less [] = []
  sort_by less (x ∷ xs) = insert_by less x (sort_by less xs)

  -- `std::vector(begin() + start, begin() + end)`, which must be a range of the vector.
  unfoldable pub range : ℤ → ℤ → List A → Outcome (List A)
  range (pos a) (pos b) xs = if leb a b then done (take (b - a) (drop a xs)) else undefined
  range _ _ xs = undefined

  -- `start = (page - 1) * limit`, `end = min(start + limit, size)`.
  unfoldable pub paginate : ℤ → ℤ → List A → Outcome (List A)
  unfolding range int_of
  paginate page limit xs =
      let before = page -ℤ pos 1 in
      let start = before *ℤ limit in
      let stop = start +ℤ limit in
      let size = int_of (length xs) in
      if not (in_int before)
      then undefined
      else if not (in_int start)
      then undefined
      else if not (in_int stop)
      then undefined
      else if ltb_ℤ start size
      then range start (min_ℤ stop size) xs
      else done []

-- `static_cast<char>(std::tolower(c))` of the "C" locale.
abbrev pub lower_code : ℕ → ℕ
lower_code c = if leb b'A' c && leb c b'Z' then c + 32 else c

unfoldable pub starts_with : List ℕ → List ℕ → Bool
starts_with xs [] = true
starts_with [] (y ∷ ys) = false
starts_with (x ∷ xs) (y ∷ ys) = x == y && starts_with xs ys

unfoldable pub has_infix : List ℕ → List ℕ → Bool
unfolding starts_with
has_infix [] ys = starts_with [] ys
has_infix (x ∷ xs) ys = starts_with (x ∷ xs) ys || has_infix xs ys

-- `toLower(text).find(toLower(query)) != npos`.
unfoldable pub contains_insensitive : String → String → Bool
unfolding has_infix
contains_insensitive text query =
    has_infix (map lower_code (codes text)) (map lower_code (codes query))

-- `if (limit > 0 && size > limit) resize(limit)`.
unfoldable pub cut {ℓ} : {A : Type ℓ} → ℤ → List A → List A
cut limit xs = elim limit [
  | pos n ↦ if ltb 0 n && ltb n (length xs) then take n xs else xs
  | negsuc n ↦ xs
]

-- The digits at the front of a text, as a number after `n`.
digits_value : ℕ → List ℕ → ℕ
digits_value n [] = n
digits_value n (c ∷ cs) =
    let rest = digits_value (n * 10 + (c - 48)) cs in if leb b'0' c && leb c b'9' then rest else n

-- One digit at least.
unsigned : List ℕ → Option ℕ
unfolding digits_value
unsigned [] = none
unsigned (c ∷ cs) = if leb b'0' c && leb c b'9' then some (digits_value 0 (c ∷ cs)) else none

skip_spaces : List ℕ → List ℕ
skip_spaces [] = []
skip_spaces (c ∷ cs) =
    let rest = skip_spaces cs in if c == 32 || leb 9 c && leb c 13 then rest else c ∷ cs

signed : List ℕ → Option ℤ
unfolding unsigned
signed [] = none
signed (c ∷ cs) =
    if c == b'-'
    then Option.map (λ n. pos 0 -ℤ pos n) (unsigned cs)
    else if c == b'+'
    then Option.map pos (unsigned cs)
    else Option.map pos (unsigned (c ∷ cs))

-- `std::stoi`; `none` where it throws: no number at the front, or one that `int` does not hold.
unfoldable pub stoi : String → Option ℤ
unfolding signed skip_spaces
stoi text = elim (signed (skip_spaces (codes text))) [
  | none ↦ none
  | some n ↦ if in_int n then some n else none
]
