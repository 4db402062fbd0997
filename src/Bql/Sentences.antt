-- ===== src/Bql/Sentences.antt =====
-- libraries/dbal/production/src/bql/bql_parser.cpp, bql_parser.hpp: the sentences, and the function
-- that reads each of their forms.
use dbal.Prelude.{
  ℕ, Bool, true, false, not, ◌&&◌, Option, none, some, List, [], ◌∷◌, ◌++◌, if◌then◌else◌, drop,
  codes, String,
}
use dbal.Bql.Lexer.{Text, word, string}
use dbal.Bql.Cursor.{Cursor, advance, is_word, skip_article, skip_comma, BqlAttr, value_of}
use dbal.Bql.Lists.{parse_attr_list, parse_name_list, parse_with, parse_add_clause, AddClause}

pub data SentenceKind : Type 0 where
  add give style class publish clear workflow trigger step publish_workflow : SentenceKind

pub record BqlSentence : Type 0 where
  pub kind : SentenceKind
  pub line : ℕ
  pub block_name : Text
  pub text : Option Text
  pub alias : Option Text
  pub parent_alias : Option Text
  pub attrs : List BqlAttr
  pub name : Text
  pub names : List Text
  pub path : Text
  pub step_name : Text
  pub event : Text
  pub form : Text

-- A sentence of the kind, with the defaults of the members.
abbrev pub sentence : SentenceKind → BqlSentence
sentence k = record {
  kind = k;
  line = 0;
  block_name = [];
  text = none;
  alias = none;
  parent_alias = none;
  attrs = [];
  name = [];
  names = [];
  path = [];
  step_name = [];
  event = [];
  form = [];
}

-- The result of a form with the cursor it leaves; the cursor of a failure is not read.
pub data Reading : Type 0 where
  reads : BqlSentence → Cursor → Reading
  fail : Text → Reading

-- A message that ends in the line, in quotes.
abbrev pub quoting : String → Text → Text
quoting message line = codes message ++ codes ": \"" ++ line ++ codes "\""

abbrev pub could_not_read : Text → Reading
could_not_read line = fail (quoting "Could not read" line)

-- A value that has to be there, and the next step on it.
abbrev pub need {ℓ} : {A : Type ℓ} → Option A → Reading → (A → Reading) → Reading
need none failure next = failure
need (some a) failure next = next a

-- A keyword that has to be next.
abbrev pub expect : Bool → Reading → Reading → Reading
expect b failure next = if b then next else failure

unfoldable pub add_result : AddClause → Option Text → BqlSentence
add_result clause parent = record (sentence add) {
  block_name = clause.block_name;
  alias = clause.alias;
  text = clause.text;
  attrs = clause.attrs;
  parent_alias = parent;
}

unfoldable pub parse_add : Cursor → Text → Reading
unfolding add_result
parse_add c line =
    need (parse_add_clause (advance c)) (fail (quoting "Could not read the block in" line))
      λ (clause, c'). reads (add_result clause none) c'

unfoldable pub parse_inside_add : Cursor → Text → Reading
unfolding skip_comma add_result
parse_inside_add c line = need (value_of word (advance c)) (could_not_read line) λ parent.
    let c' = (skip_comma (advance (advance c))).1 in
    expect (is_word "add" c') (could_not_read line) (
      need (parse_add_clause (advance c')) (fail (quoting "Could not read the block in" line))
        λ (clause, c''). reads (add_result clause (some parent)) c'')

unfoldable pub parse_give : Cursor → Text → Reading
parse_give c line = need (value_of word (advance c)) (could_not_read line) λ alias.
    need (parse_attr_list (advance (advance c)))
      (fail (quoting "Could not read the properties in" line))
      λ (attrs, c'). reads (record (sentence give) { alias = some alias; attrs = attrs }) c'

unfoldable pub parse_style : Cursor → Text → Reading
unfolding skip_article parse_with
parse_style c line =
    let c' = skip_article (advance c) in
    expect (is_word "style" c' && is_word "called" (drop 1 c')) (could_not_read line) (
      need (value_of string (drop 2 c')) (could_not_read line) λ name.
        need (parse_with (drop 3 c')) (fail (quoting "Could not read the properties in" line))
          λ (attrs, c''). reads (record (sentence style) { name = name; attrs = attrs }) c'')

abbrev pub no_names : List Text → Bool
no_names [] = true
no_names (n ∷ ns) = false

unfoldable pub parse_apply : Cursor → Text → Reading
parse_apply c line =
    let (names, c') = parse_name_list (advance c) in
    expect (not (no_names names)) (fail (quoting "Nothing to apply in" line)) (
      expect (is_word "to" c') (could_not_read line) (
        need (value_of word (advance c')) (could_not_read line) λ alias.
          reads (record (sentence class) { names = names; alias = some alias })
            (advance (advance c'))))
