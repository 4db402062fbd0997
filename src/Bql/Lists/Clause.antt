-- ===== src/Bql/Lists/Clause.antt =====
-- libraries/dbal/production/src/bql/bql_parser.cpp: the clause of an `add` sentence, spelled and
-- read.
use dbal.Prelude.{◌≡◌, refl, ap, ◌∙◌, Option, none, some, List, [], ◌∷◌}
use dbal.Bql.Lexer.{Text}
use dbal.Bql.Cursor.{Cursor, value_of, join_words, is_one_of, text_eq, is_word, consume_separator}
use dbal.Bql.Lists.{parse_with, parse_says, parse_called, parse_add_clause, AddClause, parse_parts}
use dbal.Bql.Lists.Attrs.{
  StopsAt, words_until-word_tokens, join_words-nonempty, parse_attr_list-attr_tokens, EndsList,
}
use dbal.Bql.Spelling.{
  with_tokens, says_tokens, called_tokens, clause_tokens, AddWords, AttrWords, attrs_of, AreAttrs,
  IsSpellable, clause_stops,
}

EndsList-end : EndsList []
unfolding consume_separator
EndsList-end = refl

parse_with-with_tokens :
    (attrs : List AttrWords)
    → AreAttrs attrs
    → parse_with (with_tokens attrs []) ≡ some (attrs_of attrs, [])
unfolding parse_with is_word text_eq AreAttrs attrs_of
parse_with-with_tokens [] h = refl
parse_with-with_tokens (a ∷ attrs) h = parse_attr_list-attr_tokens a attrs [] h.0 h.1 EndsList-end

parse_says-says_tokens :
    (text : Option Text) (attrs : List AttrWords)
    → parse_says (says_tokens text (with_tokens attrs [])) ≡ some (text, with_tokens attrs [])
unfolding parse_says value_of is_word text_eq
parse_says-says_tokens none [] = refl
parse_says-says_tokens none (a ∷ attrs) = refl
parse_says-says_tokens (some s) attrs = refl

parse_called-called_tokens :
    (alias text : Option Text) (attrs : List AttrWords)
    → parse_called (called_tokens alias (says_tokens text (with_tokens attrs [])))
      ≡ some (alias, says_tokens text (with_tokens attrs []))
unfolding parse_called value_of is_word text_eq
parse_called-called_tokens none none [] = refl
parse_called-called_tokens none none (a ∷ attrs) = refl
parse_called-called_tokens none (some s) attrs = refl
parse_called-called_tokens (some alias) text attrs = refl

clause-StopsAt :
    (alias text : Option Text) (attrs : List AttrWords)
    → StopsAt clause_stops (called_tokens alias (says_tokens text (with_tokens attrs [])))
unfolding is_one_of text_eq
clause-StopsAt none none [] = tt
clause-StopsAt none none (a ∷ attrs) = refl
clause-StopsAt none (some s) attrs = refl
clause-StopsAt (some alias) text attrs = refl

-- The clause that a spelled sentence stands for.
abbrev pub clause_of : AddWords → AddClause
clause_of s = record {
  block_name = join_words s.block;
  alias = s.alias;
  text = s.text;
  attrs = attrs_of s.attrs;
}

parse_parts-spelled :
    (s : AddWords)
    → IsSpellable s
    → parse_parts
        (join_words s.block)
        (called_tokens s.alias (says_tokens s.text (with_tokens s.attrs [])))
      ≡ some (clause_of s, [])
unfolding parse_parts
parse_parts-spelled s h = rw (join_words-nonempty clause_stops s.block h.block) (
    rw (parse_called-called_tokens s.alias s.text s.attrs)
      (rw (parse_says-says_tokens s.text s.attrs) (rw (parse_with-with_tokens s.attrs h.attrs))))

pub parse_add_clause-clause_tokens :
    (s : AddWords) → IsSpellable s → parse_add_clause (clause_tokens s) ≡ some (clause_of s, [])
unfolding parse_add_clause text_eq
parse_add_clause-clause_tokens s h =
    let after : Cursor = called_tokens s.alias (says_tokens s.text (with_tokens s.attrs [])) in
    ap (λ (r : List Text × Cursor). parse_parts (join_words r.0) r.1)
      (words_until-word_tokens clause_stops s.block after h.block.1
        (clause-StopsAt s.alias s.text s.attrs))
    ∙ parse_parts-spelled s h
