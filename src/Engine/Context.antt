-- ===== src/Engine/Context.antt =====
-- libraries/dbal/production/include/workflow/wf_context.hpp: the variables of a workflow and the
-- templates in its parameters. `dump` is the printer of the JSON library. The loop over a template
-- runs on fuel, its length.
pub mod Templates
use dbal.Prelude.{
  ℕ, zero, suc, Bool, true, false, Option, none, some, List, [], ◌∷◌, ◌++◌, ◌==◌, has_value, length,
  value_or, if◌then◌else◌,
}
use dbal.Bql.Lexer.{Text}
use dbal.Json.{
  Json, Items, Members, null, boolean, number, text, array, object, no_items, item, no_members,
  member, find_member, set_member,
}

abbrev pub Variables : Type 0
Variables = Members

unfoldable pub set : Text → Json → Variables → Variables
unfolding set_member
set key val vars = set_member key val vars

-- The parts of a path between its dots, the first apart from the others.
abbrev pub at_dot : ℕ → Text × List Text → Text × List Text
at_dot c (first, rest) = if c == 46 then ([], first ∷ rest) else (c ∷ first, rest)

unfoldable pub split_path : Text → Text × List Text
split_path [] = ([], [])
split_path (c ∷ cs) = at_dot c (split_path cs)

abbrev pub members_of : Json → Option Members
members_of (object ms) = some ms
members_of v = none

-- `getPath`, on the parts of the path.
unfoldable pub get_path : Json → Text → List Text → Json → Json
unfolding find_member
get_path obj key [] def = elim (members_of obj) [
  | none ↦ def
  | some ms ↦ value_or (find_member key ms) def
]
get_path obj key (next ∷ rest) def = elim (members_of obj) [
  | none ↦ def
  | some ms ↦ elim (find_member key ms) [ none ↦ def | some v ↦ get_path v next rest def ]
]

-- The root of a path must be an object.
abbrev pub get_parts : Variables → Text × List Text → Json → Json
get_parts vars (key, []) def = value_or (find_member key vars) def
get_parts vars (root, next ∷ rest) def = elim (find_member root vars) [
  | none ↦ def
  | some v ↦ get_path v next rest def
]

unfoldable pub get : Variables → Text → Json → Json
unfolding split_path find_member get_path
get vars key def = get_parts vars (split_path key) def

unfoldable pub has : Variables → Text → Bool
unfolding split_path find_member
has vars key = has_value (find_member (split_path key).0 vars)

-- The text before the next '}', and what follows it.
abbrev pub behind : ℕ → Option (Text × Text) → Option (Text × Text)
behind c none = none
behind c (some (key, rest)) = some (c ∷ key, rest)

unfoldable pub until_brace : Text → Option (Text × Text)
until_brace [] = none
until_brace (c ∷ cs) =
    let rest = until_brace cs in if c == 125 then some ([], cs) else behind c rest

abbrev pub brace : ℕ → Text → Option (Text × Text)
brace d cs = if d == 123 then until_brace cs else none

-- A "${key}" at the front, and what follows it.
unfoldable pub placeholder : Text → Option (Text × Text)
unfolding until_brace
placeholder [] = none
placeholder (c ∷ []) = none
placeholder (c ∷ d ∷ cs) = let found = brace d cs in if c == 36 then found else none

-- The regular expression of one "${key}" with a key that is not empty.
abbrev pub whole_key : Option (Text × Text) → Option Text
whole_key none = none
whole_key (some ([], rest)) = none
whole_key (some (k ∷ ks, [])) = some (k ∷ ks)
whole_key (some (k ∷ ks, r ∷ rest)) = none

module _ (dump : Json → Text) where
  abbrev pub shown_text : Json → Text
  shown_text null = []
  shown_text (text s) = s
  shown_text v = dump v

  unfoldable pub interpolate : ℕ → Variables → Text → Text
  unfolding placeholder get
  interpolate zero vars t = []
  interpolate (suc fuel) vars [] = []
  interpolate (suc fuel) vars (c ∷ cs) = elim (placeholder (c ∷ cs)) [
    | none ↦ c ∷ interpolate fuel vars cs
    | some found ↦ shown_text (get vars found.0 null) ++ interpolate fuel vars found.1
  ]

  unfoldable pub resolve_str : Variables → Text → Text
  unfolding interpolate
  resolve_str vars tmpl = interpolate (length tmpl) vars tmpl

  unfoldable pub resolve_text : Variables → Text → Json
  unfolding resolve_str placeholder get
  resolve_text vars s = elim (whole_key (placeholder s)) [
    | none ↦ text (resolve_str vars s)
    | some key ↦ get vars key (text s)
  ]

  unfoldable mutual
    unfolding resolve_text

    pub resolve : Variables → Json → Json
    resolve vars null = null
    resolve vars (boolean b) = boolean b
    resolve vars (number n) = number n
    resolve vars (text s) = resolve_text vars s
    resolve vars (array is) = array (resolve_items vars is)
    resolve vars (object ms) = object (resolve_members vars ms)

    pub resolve_items : Variables → Items → Items
    resolve_items vars no_items = no_items
    resolve_items vars (item v is) = item (resolve vars v) (resolve_items vars is)

    pub resolve_members : Variables → Members → Members
    resolve_members vars no_members = no_members
    resolve_members vars (member k v ms) = member k (resolve vars v) (resolve_members vars ms)
