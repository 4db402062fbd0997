-- ===== src/Validation.antt =====
-- libraries/dbal/production/src/validation/entity: the field checks of the entities.
use dbal.Prelude.{
  ℕ, String, len, Bool, true, false, not, ◌&&◌, ◌||◌, Option, none, some, List, [], ◌∷◌, codes,
  is_empty, ltb, leb, ◌==◌, if◌then◌else◌,
}
use dbal.Prelude.Int.{ℤ, pos, ltb_ℤ}

unfoldable pub is_valid_path : String → Bool
is_valid_path path = if is_empty path || ltb 255 (len path) then false else true

unfoldable pub is_valid_workflow_name : String → Bool
is_valid_workflow_name name = not (is_empty name) && leb (len name) 255

unfoldable pub is_valid_package_id : String → Bool
is_valid_package_id package_id = not (is_empty package_id) && leb (len package_id) 255

unfoldable pub is_valid_component_type : String → Bool
is_valid_component_type kind = not (is_empty kind) && leb (len kind) 100

unfoldable pub is_valid_component_order : ℤ → Bool
is_valid_component_order order = not (ltb_ℤ order (pos 0))

is_digit : ℕ → Bool
is_digit c = leb b'0' c && leb c b'9'

-- `\d*`, which is greedy: no digit can follow it in the pattern.
skip_digits : List ℕ → List ℕ
unfolding is_digit
skip_digits [] = []
skip_digits (c ∷ cs) = if is_digit c then skip_digits cs else c ∷ cs

-- `(0|[1-9]\d*)`, and what follows it.
numeral : List ℕ → Option (List ℕ)
unfolding skip_digits
numeral [] = none
numeral (c ∷ cs) = if c == b'0' then some cs else if is_digit c then some (skip_digits cs) else none

-- `numeral` and then a dot.
dotted : List ℕ → Option (List ℕ)
unfolding numeral
dotted cs = elim (numeral cs) [
  | none ↦ none
  | some rest ↦ elim rest [ [] ↦ none | d ∷ ds ↦ if d == b'.' then some ds else none ]
]

-- `std::regex_match` with `^(0|[1-9]\d*)\.(0|[1-9]\d*)\.(0|[1-9]\d*)$`.
unfoldable pub is_valid_semver : String → Bool
unfolding dotted
is_valid_semver version = elim (dotted (codes version)) [
  | none ↦ false
  | some minor ↦ elim (dotted minor) [
    | none ↦ false
    | some patch ↦ elim (numeral patch) [
      | none ↦ false
      | some rest ↦ elim rest [ [] ↦ true | c ∷ cs ↦ false ]
    ]
  ]
]

unfoldable pub package_key : String → String
package_key package_id = package_id
