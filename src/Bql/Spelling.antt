-- ===== src/Bql/Spelling.antt =====
-- libraries/dbal/production/src/bql/bql_parser.cpp: how a client spells an `add` sentence, in the
-- grammar that the parser reads. A name is a list of words.
use dbal.Prelude.{false, Option, none, some, List, [], ◌∷◌, ◌≡◌, ◌≢◌, codes, String}
use dbal.Bql.Lexer.{Text, word, string, punct, Token, IsWord, HasNoQuote, render}
use dbal.Bql.Cursor.{BqlAttr, Cursor, join_words, is_one_of, to_lower}
use dbal.Bql.Sentences.{BqlSentence, sentence, add}

abbrev pub word_token : Text → Token
word_token w = record { type = word; value = w }

abbrev pub keyword : String → Token
keyword w = word_token (codes w)

abbrev pub string_token : Text → Token
string_token s = record { type = string; value = s }

abbrev pub comma : Token
comma = record { type = punct; value = codes "," }

unfoldable pub word_tokens : List Text → Cursor → Cursor
word_tokens [] rest = rest
word_tokens (w ∷ ws) rest = word_token w ∷ word_tokens ws rest

-- An attribute: the words of its key, and its value.
pub record AttrWords : Type 0 where
  pub key : List Text
  pub value : Text

-- `a <key> of "<value>"`.
abbrev pub attr_tokens : AttrWords → Cursor → Cursor
attr_tokens a rest = keyword "a" ∷ word_tokens a.key (keyword "of" ∷ string_token a.value ∷ rest)

unfoldable pub and_tokens : List AttrWords → Cursor → Cursor
and_tokens [] rest = rest
and_tokens (a ∷ attrs) rest = keyword "and" ∷ attr_tokens a (and_tokens attrs rest)

-- `with`, and the attributes with `and` between them; nothing if there are none.
abbrev pub with_tokens : List AttrWords → Cursor → Cursor
with_tokens [] rest = rest
with_tokens (a ∷ attrs) rest = keyword "with" ∷ attr_tokens a (and_tokens attrs rest)

abbrev pub says_tokens : Option Text → Cursor → Cursor
says_tokens none rest = rest
says_tokens (some s) rest = keyword "that" ∷ keyword "says" ∷ string_token s ∷ rest

abbrev pub called_tokens : Option Text → Cursor → Cursor
called_tokens none rest = rest
called_tokens (some alias) rest = keyword "called" ∷ word_token alias ∷ rest

pub record AddWords : Type 0 where
  pub block : List Text
  pub alias : Option Text
  pub text : Option Text
  pub attrs : List AttrWords
  pub parent : Option Text

abbrev pub clause_tokens : AddWords → Cursor
clause_tokens s =
    keyword "a"
    ∷ word_tokens s.block (called_tokens s.alias (says_tokens s.text (with_tokens s.attrs [])))

abbrev pub inside_tokens : Option Text → Cursor → Cursor
inside_tokens none rest = keyword "add" ∷ rest
inside_tokens (some p) rest = keyword "inside" ∷ word_token p ∷ comma ∷ keyword "add" ∷ rest

abbrev pub add_tokens : AddWords → Cursor
add_tokens s = inside_tokens s.parent (clause_tokens s)

-- The line: the tokens, each with a space behind it, and a full stop.
abbrev pub spell_add : AddWords → Text
spell_add s = render (add_tokens s) (codes ".")

abbrev pub attr_of : AttrWords → BqlAttr
attr_of a = record { key = join_words a.key; value = a.value }

unfoldable pub attrs_of : List AttrWords → List BqlAttr
attrs_of [] = []
attrs_of (a ∷ attrs) = attr_of a ∷ attrs_of attrs

-- The sentence that the line stands for.
abbrev pub sentence_of : AddWords → BqlSentence
sentence_of s = record (sentence add) {
  block_name = join_words s.block;
  alias = s.alias;
  text = s.text;
  attrs = attrs_of s.attrs;
  parent_alias = s.parent;
}

-- Words that can be spelled, none of them a stop word.
unfoldable pub AreNameWords : List String → List Text → Type 0
AreNameWords stop [] = Unit
AreNameWords stop (w ∷ ws) =
    (w ≢ []) × IsWord w × (is_one_of stop (to_lower w) ≡ false) × AreNameWords stop ws

-- A name has a word.
abbrev pub IsName : List String → List Text → Type 0
IsName stop ws = (ws ≢ []) × AreNameWords stop ws

abbrev pub IsAttr : AttrWords → Type 0
IsAttr a = IsName ("of" ∷ []) a.key × HasNoQuote a.value

unfoldable pub AreAttrs : List AttrWords → Type 0
AreAttrs [] = Unit
AreAttrs (a ∷ attrs) = IsAttr a × AreAttrs attrs

abbrev pub IsOptionalWord : Option Text → Type 0
IsOptionalWord none = Unit
IsOptionalWord (some w) = (w ≢ []) × IsWord w

abbrev pub IsOptionalString : Option Text → Type 0
IsOptionalString none = Unit
IsOptionalString (some s) = HasNoQuote s

abbrev pub clause_stops : List String
clause_stops = "called" ∷ "that" ∷ "with" ∷ []

pub record IsSpellable (s : AddWords) : Type 0 where
  pub block : IsName clause_stops s.block
  pub alias : IsOptionalWord s.alias
  pub text : IsOptionalString s.text
  pub attrs : AreAttrs s.attrs
  pub parent : IsOptionalWord s.parent
