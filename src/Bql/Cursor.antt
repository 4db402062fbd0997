-- ===== src/Bql/Cursor.antt =====
-- libraries/dbal/production/src/bql/bql_parser.cpp: the cursor over the tokens of a line and the
-- readers of words, values and lists. A cursor is the list of the tokens that it has not passed,
-- and a reader returns what it read with the cursor it leaves.
use dbal.Prelude.{
  ℕ, Bool, true, false, not, ◌&&◌, ◌||◌, Option, none, some, List, [], ◌∷◌, ◌++◌, map, ◌==◌,
  if◌then◌else◌, drop, codes, String,
}
use dbal.Listing.{lower_code}
use dbal.Bql.Lexer.{Text, TokenType, word, string, punct, Token}

-- What `peek` and `next` see is the first token; `next` at the end stays there.
abbrev pub Cursor : Type 0
Cursor = List Token

abbrev pub advance : Cursor → Cursor
advance c = drop 1 c

-- `std::string::operator==`.
unfoldable pub text_eq : Text → Text → Bool
text_eq [] [] = true
text_eq (a ∷ s) (b ∷ t) = a == b && text_eq s t
text_eq s t = false

abbrev pub to_lower : Text → Text
to_lower s = map lower_code s

-- `trim` drops spaces, tabs and ends of line.
abbrev pub is_blank : ℕ → Bool
is_blank c = c == 32 || c == 9 || c == 13 || c == 10

unfoldable pub trim_start : Text → Text
trim_start [] = []
trim_start (c ∷ cs) = let rest = trim_start cs in if is_blank c then rest else (c ∷ cs)

abbrev pub trim_one : ℕ → Text → Text
trim_one c [] = if is_blank c then [] else c ∷ []
trim_one c (d ∷ cs) = c ∷ d ∷ cs

unfoldable pub trim_end : Text → Text
trim_end [] = []
trim_end (c ∷ cs) = trim_one c (trim_end cs)

unfoldable pub trim : Text → Text
unfolding trim_start trim_end
trim s = trim_end (trim_start s)

abbrev pub is_type : TokenType → TokenType → Bool
is_type word word = true
is_type string string = true
is_type punct punct = true
is_type _ _ = false

abbrev pub is_word_token : Text → Token → Bool
is_word_token s t = is_type t.type word && text_eq (to_lower t.value) s

-- `isWord(c, value, offset)` is `is_word value (drop offset c)`.
unfoldable pub is_word : String → Cursor → Bool
is_word s [] = false
is_word s (t ∷ c) = is_word_token (codes s) t

unfoldable pub is_comma : Cursor → Bool
is_comma [] = false
is_comma (t ∷ c) = is_type t.type punct && text_eq t.value (codes ",")

unfoldable pub skip_article : Cursor → Cursor
unfolding is_word
skip_article c = if is_word "a" c || is_word "an" c then advance c else c

-- The value of the first token, if it has the type: `next` with the test of its result.
unfoldable pub value_of : TokenType → Cursor → Option Text
value_of type [] = none
value_of type (t ∷ c) = if is_type t.type type then some t.value else none

unfoldable pub join_words : List Text → Text
join_words [] = []
join_words (w ∷ []) = w
join_words (w ∷ v ∷ ws) = w ++ 32 ∷ join_words (v ∷ ws)

-- `std::find(stopWords)`.
unfoldable pub is_one_of : List String → Text → Bool
is_one_of [] s = false
is_one_of (w ∷ ws) s = text_eq (codes w) s || is_one_of ws s

abbrev pub stops : List String → Token → Bool
stops words t = not (is_type t.type word) || is_one_of words (to_lower t.value)

-- The loop of `consumeWordsUntil`, and of `parseValue` with "and" as the one stop word.
unfoldable pub words_until : List String → Cursor → List Text × Cursor
words_until words [] = ([], [])
words_until words (t ∷ c) =
    let rest = words_until words c in
    if stops words t then ([], t ∷ c) else (t.value ∷ rest.0, rest.1)

unfoldable pub consume_words_until : List String → Cursor → Text × Cursor
consume_words_until words c = (join_words (words_until words c).0, (words_until words c).1)

unfoldable pub skip_word : String → Cursor → Bool × Cursor
unfolding is_word
skip_word s c = if is_word s c then (true, advance c) else (false, c)

unfoldable pub skip_comma : Cursor → Bool × Cursor
unfolding is_comma
skip_comma c = if is_comma c then (true, advance c) else (false, c)

unfoldable pub consume_separator : Cursor → Bool × Cursor
unfolding skip_comma skip_word
consume_separator c =
    let (comma, c') = skip_comma c in let (and, c'') = skip_word "and" c' in (comma || and, c'')

abbrev pub joined_value : List Text → Cursor → Option (Text × Cursor)
joined_value [] c = none
joined_value (w ∷ ws) c = some (join_words (w ∷ ws), c)

unfoldable pub parse_value : Cursor → Option (Text × Cursor)
unfolding words_until
parse_value [] = none
parse_value (t ∷ c) = elim t.type [
  | string ↦ some (t.value, c)
  | _ ↦ joined_value (words_until ("and" ∷ []) (t ∷ c)).0 (words_until ("and" ∷ []) (t ∷ c)).1
]

pub record BqlAttr : Type 0 where
  pub key : Text
  pub value : Text

abbrev pub is_empty_text : Text → Bool
is_empty_text [] = true
is_empty_text (c ∷ cs) = false

-- What follows the key of an attribute: `of` and a value.
unfoldable pub parse_of : Text → Cursor → Option (BqlAttr × Cursor)
unfolding is_word parse_value
parse_of key c =
    if is_empty_text key || not (is_word "of" c) then none else elim (parse_value (advance c)) [
      | none ↦ none
      | some (v, c') ↦ some (record { key = key; value = v }, c')
    ]

unfoldable pub parse_attr_item : Cursor → Option (BqlAttr × Cursor)
unfolding skip_article consume_words_until parse_of
parse_attr_item c =
    let (key, c') = consume_words_until ("of" ∷ []) (skip_article c) in parse_of key c'
