-- ===== src/Bql/Lists.antt =====
-- libraries/dbal/production/src/bql/bql_parser.cpp: the lists of attributes and of names, and the
-- clause that names a block.
pub mod Attrs
pub mod Ends
pub mod Clause
use dbal.Prelude.{
  ℕ, zero, suc, Bool, true, false, Option, none, some, List, [], ◌∷◌, if◌then◌else◌, length,
  value_or,
}
use dbal.Bql.Lexer.{Text, TokenType, word, string, Token}
use dbal.Bql.Cursor.{
  Cursor, advance, is_word, skip_article, consume_words_until, consume_separator, parse_attr_item,
  BqlAttr, value_of, is_empty_text, is_type,
}

-- What a loop has read, put behind an item.
abbrev pub prepend {ℓ} : {A : Type ℓ} → A → Option (List A × Cursor) → Option (List A × Cursor)
prepend a none = none
prepend a (some (as', c)) = some (a ∷ as', c)

-- A result of a loop on fuel: the outer `none` means that the fuel ran out, the inner one that an
-- item could not be read.
abbrev pub prepend_round {ℓ} :
    {A : Type ℓ} → A → Option (Option (List A × Cursor)) → Option (Option (List A × Cursor))
prepend_round a none = none
prepend_round a (some r) = some (prepend a r)

-- One round of `while (consumeSeparator(c))`, by what the separator says.
unfoldable pub attr_round :
    (Cursor → Option (Option (List BqlAttr × Cursor)))
    → Bool × Cursor
    → Option (Option (List BqlAttr × Cursor))
attr_round again (false, c) = some (some ([], c))
attr_round again (true, c) = elim (parse_attr_item c) [
  | none ↦ some none
  | some (a, c') ↦ prepend_round a (again c')
]

unfoldable pub more_attrs : ℕ → Cursor → Option (Option (List BqlAttr × Cursor))
unfolding attr_round
more_attrs zero c = none
more_attrs (suc fuel) c = attr_round (more_attrs fuel) (consume_separator c)

unfoldable pub parse_attr_list : Cursor → Option (List BqlAttr × Cursor)
parse_attr_list c = elim (parse_attr_item c) [
  | none ↦ none
  | some (a, c') ↦ prepend a (value_or (more_attrs (suc (length c')) c') none)
]

-- One round of the loop of `parseNameList` on a string, by what the separator says.
unfoldable pub name_round :
    Text → (Cursor → Option (List Text × Cursor)) → Bool × Cursor → Option (List Text × Cursor)
name_round name again (false, c) = some (name ∷ [], c)
name_round name again (true, c) = prepend name (again c)

unfoldable pub names_from : ℕ → Cursor → Option (List Text × Cursor)
unfolding name_round
names_from zero c = none
names_from (suc fuel) [] = some ([], [])
names_from (suc fuel) (t ∷ c) = elim (is_type t.type string) [
  | false ↦ some ([], t ∷ c)
  | true ↦ name_round t.value (names_from fuel) (consume_separator c)
]

unfoldable pub parse_name_list : Cursor → List Text × Cursor
parse_name_list c = value_or (names_from (suc (length c)) c) ([], c)

pub record AddClause : Type 0 where
  pub block_name : Text
  pub alias : Option Text
  pub text : Option Text
  pub attrs : List BqlAttr

-- `with` and a list of attributes, or nothing.
unfoldable pub parse_with : Cursor → Option (List BqlAttr × Cursor)
parse_with c = if is_word "with" c then parse_attr_list (advance c) else some ([], c)

-- `that says` and a string, or nothing.
unfoldable pub parse_says : Cursor → Option (Option Text × Cursor)
parse_says c =
    if is_word "that" c
    then if is_word "says" (advance c)
      then elim (value_of string (advance (advance c))) [
        | none ↦ none
        | some text ↦ some (some text, advance (advance (advance c)))
      ]
      else none
    else some (none, c)

-- `called` and a word, or nothing.
unfoldable pub parse_called : Cursor → Option (Option Text × Cursor)
parse_called c =
    if is_word "called" c
    then elim (value_of word (advance c)) [
      | none ↦ none
      | some alias ↦ some (some alias, advance (advance c))
    ]
    else some (none, c)

-- What follows the name of the block.
unfoldable pub parse_parts : Text → Cursor → Option (AddClause × Cursor)
unfolding parse_called parse_says parse_with
parse_parts name c = if is_empty_text name then none else elim (parse_called c) [
  | none ↦ none
  | some (alias, c') ↦ elim (parse_says c') [
    | none ↦ none
    | some (text, c'') ↦ elim (parse_with c'') [
      | none ↦ none
      | some (attrs, end) ↦
          some (record { block_name = name; alias = alias; text = text; attrs = attrs }, end)
    ]
  ]
]

unfoldable pub parse_add_clause : Cursor → Option (AddClause × Cursor)
unfolding parse_parts skip_article consume_words_until
parse_add_clause c =
    let (name, c') = consume_words_until ("called" ∷ "that" ∷ "with" ∷ []) (skip_article c) in
    parse_parts name c'
