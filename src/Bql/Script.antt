-- ===== src/Bql/Script.antt =====
-- libraries/dbal/production/src/bql/bql_parser.cpp: a sentence from its line, and a script from its
-- text.
pub mod Add
pub mod Lines
use dbal.Prelude.{
  ℕ, suc, ◌+◌, Bool, true, false, not, ◌&&◌, ◌||◌, Option, none, some, List, [], ◌∷◌, ◌++◌, ◌==◌,
  if◌then◌else◌, codes,
}
use dbal.Bql.Lexer.{Text, TokenType, word, string, punct, Token, tokenize}
use dbal.Bql.Cursor.{Cursor, is_word, text_eq, trim, is_type}
use dbal.Bql.Sentences.{
  BqlSentence, Reading, reads, fail, quoting, parse_add, parse_inside_add, parse_give, parse_style,
  parse_apply,
}
use dbal.Bql.Actions.{parse_publish, parse_clear, parse_run_when, parse_then}

abbrev pub is_full_stop : Token → Bool
is_full_stop t = is_type t.type punct && text_eq t.value (codes ".")

unfoldable pub strip_terminator : List Token → List Token
unfolding text_eq
strip_terminator [] = []
strip_terminator (t ∷ []) = if is_full_stop t then [] else t ∷ []
strip_terminator (t ∷ u ∷ ts) = t ∷ strip_terminator (u ∷ ts)

-- The form by the first word of the line.
unfoldable pub read_form : Cursor → Text → Reading
read_form c line =
    if is_word "start" c
    then parse_clear c line
    else if is_word "publish" c
    then parse_publish c line
    else if is_word "apply" c
    then parse_apply c line
    else if is_word "make" c
    then parse_style c line
    else if is_word "give" c
    then parse_give c line
    else if is_word "inside" c
    then parse_inside_add c line
    else if is_word "add" c
    then parse_add c line
    else if is_word "run" c
    then parse_run_when c line
    else if is_word "then" c
    then parse_then c line
    else fail (quoting "Didn't understand" line)

pub data SentenceResult : Type 0 where
  ok : BqlSentence → SentenceResult
  error : Text → SentenceResult

-- A token that is left over makes the line an error.
unfoldable pub finish : Text → Reading → SentenceResult
finish line (reads s []) = ok s
finish line (reads s (extra ∷ c)) =
    error (codes "Did not understand \"" ++ extra.value ++ quoting "\" in" line)
finish line (fail message) = error message

unfoldable pub parse_sentence : Text → SentenceResult
unfolding strip_terminator read_form finish
parse_sentence line = finish line (read_form (strip_terminator (tokenize (trim line))) line)

abbrev pub in_front : ℕ → List Text → List Text
in_front c [] = (c ∷ []) ∷ []
in_front c (line ∷ lines) = (c ∷ line) ∷ lines

-- The text between the ends of line; one more line than there are of these.
unfoldable pub split_lines : Text → List Text
split_lines [] = [] ∷ []
split_lines (c ∷ cs) = let rest = split_lines cs in if c == 10 then [] ∷ rest else in_front c rest

pub record ScriptError : Type 0 where
  pub line : ℕ
  pub message : Text

pub record ScriptParseResult : Type 0 where
  pub ok : Bool
  pub sentences : List BqlSentence
  pub errors : List ScriptError

-- Blank, or a comment.
abbrev pub is_skipped : Text → Bool
is_skipped [] = true
is_skipped (c ∷ cs) = c == 35

-- What one sentence adds to the results of the lines after it.
abbrev pub record_line :
    ℕ → SentenceResult → List BqlSentence × List ScriptError → List BqlSentence × List ScriptError
record_line n (ok s) (ss, es) = (record s { line = n } ∷ ss, es)
record_line n (error m) (ss, es) = (ss, record { line = n; message = m } ∷ es)

-- The loop over the lines from the number `n` on.
unfoldable pub parse_lines : ℕ → List Text → List BqlSentence × List ScriptError
unfolding trim
parse_lines n [] = ([], [])
parse_lines n (line ∷ lines) =
    let rest = parse_lines (suc n) lines in
    if is_skipped (trim line) then rest else record_line n (parse_sentence (trim line)) rest

abbrev pub script_result : List BqlSentence × List ScriptError → ScriptParseResult
script_result (ss, []) = record { ok = true; sentences = ss; errors = [] }
script_result (ss, e ∷ es) = record { ok = false; sentences = []; errors = e ∷ es }

unfoldable pub parse_script : Text → ScriptParseResult
unfolding split_lines parse_lines
parse_script script = script_result (parse_lines 1 (split_lines script))
