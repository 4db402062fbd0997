-- ===== src/Bql/Script/Add.antt =====
-- libraries/dbal/production/src/bql/bql_parser.cpp: an `add` sentence, from its text to its parts.
use dbal.Prelude.{
  ℕ, ◌≡◌, ◌≢◌, refl, sym, ap, ◌∙◌, Option, none, some, List, [], ◌∷◌, ◌++◌, codes, String, inl,
  arith,
}
use dbal.Bql.Lexer.{
  Text, TokenType, word, string, punct, Token, IsToken, IsWord, AreTokens, full_stop, render, spell,
  tokenize,
}
use dbal.Bql.Lexer.Render.{tokenize-sentence}
use dbal.Bql.Cursor.{
  Cursor, trim, trim_end, trim_start, trim_one, is_word, text_eq, is_comma, value_of,
}
use dbal.Bql.Lists.Clause.{parse_add_clause-clause_tokens}
use dbal.Bql.Sentences.{Reading, reads, parse_add, parse_inside_add}
use dbal.Bql.Script.{strip_terminator, read_form, finish, parse_sentence, ok}
use dbal.Bql.Spelling.{
  word_tokens, keyword, comma, word_token, string_token, attr_tokens, and_tokens, with_tokens,
  says_tokens, called_tokens, clause_tokens, inside_tokens, add_tokens, AddWords, AttrWords,
  AreAttrs, IsAttr, AreNameWords, IsSpellable, IsOptionalWord, IsOptionalString, spell_add,
  sentence_of,
}

-- The spelled tokens can be lexed.
words-AreTokens :
    (stop : List String) (ws : List Text) (rest : Cursor)
    → AreNameWords stop ws
    → AreTokens rest
    → AreTokens (word_tokens ws rest)
unfolding AreTokens word_tokens AreNameWords
words-AreTokens stop [] rest h r = r
words-AreTokens stop (w ∷ ws) rest h r = ((h.0, h.1), words-AreTokens stop ws rest h.3 r)

AreTokens-keyword : (t : Token) (ts : List Token) → IsToken t → AreTokens ts → AreTokens (t ∷ ts)
unfolding AreTokens
AreTokens-keyword t ts h hs = (h, hs)

attr-AreTokens :
    (a : AttrWords) (rest : Cursor) → IsAttr a → AreTokens rest → AreTokens (attr_tokens a rest)
unfolding IsWord
attr-AreTokens a rest h r =
    AreTokens-keyword (keyword "a") _ ((λ e. ground arith), ground arith)
      (words-AreTokens ("of" ∷ []) a.key _ h.0.1 (
        AreTokens-keyword (keyword "of") _ ((λ e. ground arith), ground arith)
          (AreTokens-keyword (string_token a.value) rest h.1 r)))

and-AreTokens : (attrs : List AttrWords) → AreAttrs attrs → AreTokens (and_tokens attrs [])
unfolding AreTokens and_tokens AreAttrs IsWord
and-AreTokens [] h = tt
and-AreTokens (a ∷ attrs) h =
    (((λ e. ground arith), ground arith), attr-AreTokens a _ h.0 (and-AreTokens attrs h.1))

with-AreTokens : (attrs : List AttrWords) → AreAttrs attrs → AreTokens (with_tokens attrs [])
unfolding AreTokens AreAttrs IsWord
with-AreTokens [] h = tt
with-AreTokens (a ∷ attrs) h =
    (((λ e. ground arith), ground arith), attr-AreTokens a _ h.0 (and-AreTokens attrs h.1))

says-AreTokens :
    (text : Option Text) (rest : Cursor)
    → IsOptionalString text
    → AreTokens rest
    → AreTokens (says_tokens text rest)
unfolding IsWord
says-AreTokens none rest h r = r
says-AreTokens (some s) rest h r =
    AreTokens-keyword (keyword "that") _ ((λ e. ground arith), ground arith)
      (AreTokens-keyword (keyword "says") _ ((λ e. ground arith), ground arith)
        (AreTokens-keyword (string_token s) rest h r))

called-AreTokens :
    (alias : Option Text) (rest : Cursor)
    → IsOptionalWord alias
    → AreTokens rest
    → AreTokens (called_tokens alias rest)
unfolding IsWord
called-AreTokens none rest h r = r
called-AreTokens (some w) rest h r =
    AreTokens-keyword (keyword "called") _ ((λ e. ground arith), ground arith)
      (AreTokens-keyword (word_token w) rest h r)

inside-AreTokens :
    (parent : Option Text) (rest : Cursor)
    → IsOptionalWord parent
    → AreTokens rest
    → AreTokens (inside_tokens parent rest)
unfolding IsWord
inside-AreTokens none rest h r =
    AreTokens-keyword (keyword "add") rest ((λ e. ground arith), ground arith) r
inside-AreTokens (some p) rest h r =
    AreTokens-keyword (keyword "inside") _ ((λ e. ground arith), ground arith)
      (AreTokens-keyword (word_token p) _ h (
        AreTokens-keyword comma _ (inl refl)
          (AreTokens-keyword (keyword "add") rest ((λ e. ground arith), ground arith) r)))

add-AreTokens : (s : AddWords) → IsSpellable s → AreTokens (add_tokens s)
unfolding IsWord
add-AreTokens s h = inside-AreTokens s.parent (clause_tokens s) h.parent (
    AreTokens-keyword (keyword "a") _ ((λ e. ground arith), ground arith)
      (words-AreTokens _ s.block _ h.block.1 (
        called-AreTokens s.alias _ h.alias
          (says-AreTokens s.text _ h.text (with-AreTokens s.attrs h.attrs)))))

-- The blanks around a spelled line are those that its tokens leave: none.
Trimmed : Text → Type 0
Trimmed s = (trim_end s ≡ s) × (s ≢ [])

trim_one-nonempty : (c : ℕ) (s : Text) → s ≢ [] → trim_one c s ≡ c ∷ s
trim_one-nonempty c [] h = absurd (h refl)
trim_one-nonempty c (d ∷ s) h = refl

Trimmed-cons : (c : ℕ) (s : Text) → Trimmed s → Trimmed (c ∷ s)
unfolding Trimmed trim_end
Trimmed-cons c s h = (rw h.0 (trim_one-nonempty c s h.1), λ e. cc)

Trimmed-append : (v s : Text) → Trimmed s → Trimmed (v ++ s)
Trimmed-append [] s h = h
Trimmed-append (c ∷ v) s h = Trimmed-cons c (v ++ s) (Trimmed-append v s h)

Trimmed-spell : (t : Token) (s : Text) → Trimmed s → Trimmed (spell t s)
Trimmed-spell t s h = by_type t.type
  where
    by_type : (k : TokenType) → Trimmed (spell (record { type = k; value = t.value }) s)
    by_type word = Trimmed-append t.value _ (Trimmed-cons 32 s h)
    by_type punct = Trimmed-append t.value _ (Trimmed-cons 32 s h)
    by_type string =
        Trimmed-cons 34 _ (Trimmed-append t.value _ (Trimmed-cons 34 _ (Trimmed-cons 32 s h)))

Trimmed-render : (ts : List Token) (s : Text) → Trimmed s → Trimmed (render ts s)
unfolding render
Trimmed-render [] s h = h
Trimmed-render (t ∷ ts) s h = Trimmed-spell t _ (Trimmed-render ts s h)

Trimmed-full_stop : Trimmed (codes ".")
unfolding Trimmed trim_end
Trimmed-full_stop = (refl, λ e. cc)

trim_start-spelled :
    (parent : Option Text) (c : Cursor)
    → trim_start (render (inside_tokens parent c) (codes "."))
      ≡ render (inside_tokens parent c) (codes ".")
unfolding trim_start render
trim_start-spelled none c = refl
trim_start-spelled (some p) c = refl

trim-spell_add : (s : AddWords) → trim (spell_add s) ≡ spell_add s
unfolding trim Trimmed
trim-spell_add s =
    ap trim_end (trim_start-spelled s.parent (clause_tokens s))
    ∙ (Trimmed-render (add_tokens s) (codes ".") Trimmed-full_stop).0

strip_terminator-full_stop : (ts : List Token) → strip_terminator (ts ++ full_stop ∷ []) ≡ ts
unfolding strip_terminator
strip_terminator-full_stop [] = refl
strip_terminator-full_stop (t ∷ []) = refl
strip_terminator-full_stop (t ∷ u ∷ ts) =
    ap (λ (r : List Token). t ∷ r) (strip_terminator-full_stop (u ∷ ts))

abbrev with_parent : AddWords → Option Text → Reading
with_parent s parent = reads (record (sentence_of s) { parent_alias = parent }) []

read_form-add_tokens :
    (s : AddWords) (parent : Option Text) (line : Text)
    → IsSpellable s
    → s.parent ≡ parent
    → read_form (inside_tokens parent (clause_tokens s)) line ≡ reads (sentence_of s) []
unfolding read_form is_word text_eq parse_add parse_inside_add value_of is_comma
read_form-add_tokens s none line h e =
    rw (parse_add_clause-clause_tokens s h) (ap (with_parent s) (sym e))
read_form-add_tokens s (some p) line h e =
    rw (parse_add_clause-clause_tokens s h) (ap (with_parent s) (sym e))

-- An `add` sentence that is spelled as a line is parsed to the sentence with these parts: its block,
-- alias, text, attributes and parent, from words that no space, quote, comma or full stop breaks,
-- none of them a stop word of its place, and strings without a quote.
pub parse_sentence-spell_add :
    (s : AddWords) → IsSpellable s → parse_sentence (spell_add s) ≡ ok (sentence_of s)
unfolding parse_sentence
parse_sentence-spell_add s h =
    ap
      (λ (ts : Text).
        finish (spell_add s) (read_form (strip_terminator (tokenize ts)) (spell_add s)))
      (trim-spell_add s)
    ∙ ap (λ (ts : List Token). finish (spell_add s) (read_form (strip_terminator ts) (spell_add s)))
        (tokenize-sentence (add_tokens s) (add-AreTokens s h))
    ∙ ap (λ (ts : List Token). finish (spell_add s) (read_form ts (spell_add s)))
        (strip_terminator-full_stop (add_tokens s))
    ∙ ap (finish (spell_add s)) (read_form-add_tokens s s.parent (spell_add s) h refl)
