-- ===== src/Tests/Bql.antt =====
-- libraries/dbal/production/src/bql: the theorems at lines and scripts.
use dbal.Prelude.{◌≡◌, some, [], ◌∷◌, codes, arith}
use dbal.Bql.Lexer.{Text, render, tokenize, AreTokens, IsWord, HasNoQuote}
use dbal.Bql.Lexer.Render.{tokenize-render}
use dbal.Bql.Cursor.{Cursor, is_one_of, text_eq}
use dbal.Bql.Spelling.{
  keyword, string_token, comma, AddWords, IsSpellable, AreNameWords, AreAttrs, spell_add,
  sentence_of,
}
use dbal.Bql.Script.{parse_script, parse_sentence, ok, split_lines}
use dbal.Bql.Script.Add.{parse_sentence-spell_add}
use dbal.Bql.Script.Lines.{counted, AllOrNothing, parse_script-AllOrNothing}

abbrev pub list_tokens : Cursor
list_tokens =
    keyword "apply"
    ∷ string_token (codes "big, red")
    ∷ comma
    ∷ keyword "and"
    ∷ string_token (codes "b")
    ∷ keyword "to"
    ∷ keyword "x.y"
    ∷ []

tokenize-render_example : tokenize (render list_tokens []) ≡ list_tokens
unfolding AreTokens IsWord HasNoQuote
tokenize-render_example = tokenize-render list_tokens (grind arith)

abbrev heading : AddWords
heading = record {
  block = codes "Heading" ∷ codes "1" ∷ [];
  alias = some (codes "h");
  text = some (codes "Hi, you.");
  attrs =
      record { key = codes "size" ∷ []; value = codes "3" }
      ∷ record { key = codes "font" ∷ codes "colour" ∷ []; value = codes "red." }
      ∷ [];
  parent = some (codes "page");
}

heading-IsSpellable : IsSpellable heading
unfolding IsWord HasNoQuote AreNameWords AreAttrs is_one_of text_eq
heading-IsSpellable = record {
  block = grind arith;
  alias = grind arith;
  text = grind arith;
  attrs = grind arith;
  parent = grind arith;
}

parse_sentence-spell_add_example : parse_sentence (spell_add heading) ≡ ok (sentence_of heading)
parse_sentence-spell_add_example = parse_sentence-spell_add heading heading-IsSpellable

abbrev sample : Text
sample =
    codes "start a new page\n\n# note\nadd a Heading 1 with size of 3\npublish this at /about now"

parse_script-AllOrNothing_example :
    AllOrNothing (counted 1 (split_lines sample)) (parse_script sample)
parse_script-AllOrNothing_example = parse_script-AllOrNothing sample
