-- ===== src/Json.antt =====
-- The JSON values of nlohmann::json, which libraries/dbal/production uses. An object is a map in the
-- order of its keys; a text is the list of its bytes, and a number is kept as its literal.
use Prim.Native.Nat.{Ordering, compare}
use dbal.Prelude.{Bool, true, false, Option, none, some, [], ◌∷◌, if◌then◌else◌}
use dbal.Bql.Lexer.{Text}
use dbal.Bql.Cursor.{text_eq}

mutual
  pub data Json : Type 0 where
    null : Json
    boolean : Bool → Json
    number : Text → Json
    text : Text → Json
    array : Items → Json
    object : Members → Json

  pub data Items : Type 0 where
    no_items : Items
    item : Json → Items → Items

  pub data Members : Type 0 where
    no_members : Members
    member : Text → Json → Members → Members

-- `std::string::operator<` on bytes.
unfoldable pub text_lt : Text → Text → Bool
text_lt [] [] = false
text_lt [] (b ∷ t) = true
text_lt (a ∷ s) [] = false
text_lt (a ∷ s) (b ∷ t) =
    let rest = text_lt s t in
    elim (compare a b) [ Ordering.lt ↦ true | Ordering.eq ↦ rest | Ordering.gt ↦ false ]

-- `find`; `none` is `end()`.
unfoldable pub find_member : Text → Members → Option Json
unfolding text_eq
find_member k no_members = none
find_member k (member j v ms) = if text_eq j k then some v else find_member k ms

-- `object[key] = value`.
unfoldable pub set_member : Text → Json → Members → Members
unfolding text_eq text_lt
set_member k v no_members = member k v no_members
set_member k v (member j w ms) =
    let rest = set_member k v ms in
    if text_eq j k
    then member k v ms
    else if text_lt k j
    then member k v (member j w ms)
    else member j w rest
