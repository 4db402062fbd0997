-- ===== src/Bql/Script/Lines.antt =====
-- libraries/dbal/production/src/bql/bql_parser.cpp: the lines of a script, and its result as a whole.
use dbal.Prelude.{
  ℕ, suc, ◌≡◌, ◌≢◌, refl, sym, ap, ◌∙◌, ==_iff, true, false, List, [], ◌∷◌, ◌++◌, arith, ◌==◌, ◌⊎◌,
  inl, inr, Bool-cases, if◌then◌else◌,
}
use dbal.Bql.Lexer.{Text}
use dbal.Bql.Cursor.{trim}
use dbal.Bql.Sentences.{BqlSentence}
use dbal.Bql.Script.{
  SentenceResult, ok, error, parse_sentence, in_front, split_lines, ScriptError, ScriptParseResult,
  is_skipped, record_line, parse_lines, script_result, parse_script,
}

-- The lines that are neither blank nor comments, trimmed, with their numbers from `n` on.
unfoldable pub counted : ℕ → List Text → List (ℕ × Text)
counted n [] = []
counted n (line ∷ lines) =
    let rest = counted (suc n) lines in
    if is_skipped (trim line) then rest else (n, trim line) ∷ rest

-- Each line reads as the sentence in its place, which has the number of the line.
pub data AllRead : List (ℕ × Text) → List BqlSentence → Type 0 where
  none_left : AllRead [] []
  reads_next :
      {n : ℕ} {t : Text} {ls : List (ℕ × Text)} {ss : List BqlSentence} (s : BqlSentence)
      → parse_sentence t ≡ ok s
      → AllRead ls ss
      → AllRead ((n, t) ∷ ls) (record s { line = n } ∷ ss)

-- The errors are those of the lines that do not read, in their order, with their numbers.
pub data Rejected : List (ℕ × Text) → List ScriptError → Type 0 where
  none_left : Rejected [] []
  reads_next :
      {n : ℕ} {t : Text} {ls : List (ℕ × Text)} {es : List ScriptError} (s : BqlSentence)
      → parse_sentence t ≡ ok s
      → Rejected ls es
      → Rejected ((n, t) ∷ ls) es
  fails_next :
      {n : ℕ} {t : Text} {ls : List (ℕ × Text)} {es : List ScriptError} (m : Text)
      → parse_sentence t ≡ error m
      → Rejected ls es
      → Rejected ((n, t) ∷ ls) (record { line = n; message = m } ∷ es)

-- What the loop has made of the lines: their errors, and their sentences if there is no error.
abbrev Parsed : List (ℕ × Text) → List BqlSentence × List ScriptError → Type 0
Parsed ls r = Rejected ls r.1 × (r.1 ≡ [] → AllRead ls r.0)

Parsed-record_line :
    (n : ℕ) (t : Text) (ls : List (ℕ × Text)) (r : List BqlSentence × List ScriptError)
    (x : SentenceResult)
    → parse_sentence t ≡ x
    → Parsed ls r
    → Parsed ((n, t) ∷ ls) (record_line n x r)
Parsed-record_line n t ls (ss, es) (ok s) e h =
    (Rejected.reads_next s e h.0, λ none_failed. AllRead.reads_next s e (h.1 none_failed))
Parsed-record_line n t ls (ss, es) (error m) e h =
    (Rejected.fails_next m e h.0, λ none_failed. absurd (cc))

parse_lines-Parsed : (n : ℕ) (lines : List Text) → Parsed (counted n lines) (parse_lines n lines)
unfolding parse_lines counted
parse_lines-Parsed n [] = (Rejected.none_left, λ e. AllRead.none_left)
parse_lines-Parsed n (line ∷ lines) = elim (Bool-cases (is_skipped (trim line))) [
  | inl skipped ↦ rw skipped (parse_lines-Parsed (suc n) lines)
  | inr counts ↦ rw counts (
      Parsed-record_line n (trim line) (counted (suc n) lines) (parse_lines (suc n) lines)
        (parse_sentence (trim line)) refl (parse_lines-Parsed (suc n) lines))
]

-- The two outcomes of a script.
abbrev pub AllOrNothing : List (ℕ × Text) → ScriptParseResult → Type 0
AllOrNothing ls r =
    (r.ok ≡ true) × (r.errors ≡ []) × AllRead ls r.sentences
    ⊎ (r.ok ≡ false) × (r.sentences ≡ []) × (r.errors ≢ []) × Rejected ls r.errors

script_result-AllOrNothing :
    (ls : List (ℕ × Text)) (r : List BqlSentence × List ScriptError)
    → Parsed ls r
    → AllOrNothing ls (script_result r)
script_result-AllOrNothing ls (ss, []) h = inl (refl, refl, h.1 refl)
script_result-AllOrNothing ls (ss, e ∷ es) h = inr (refl, refl, (λ none_failed. cc), h.0)

-- Either every line of a script that is neither blank nor a comment reads, and the result has their
-- sentences, in order and with the numbers of their lines, and no error; or the result has no
-- sentence, and the errors of exactly the lines that do not read, of which there is one.
pub parse_script-AllOrNothing :
    (script : Text) → AllOrNothing (counted 1 (split_lines script)) (parse_script script)
unfolding parse_script
parse_script-AllOrNothing script =
    script_result-AllOrNothing (counted 1 (split_lines script)) (parse_lines 1 (split_lines script))
      (parse_lines-Parsed 1 (split_lines script))

-- The lines with an end of line between each two.
unfoldable pub join_lines : List Text → Text
join_lines [] = []
join_lines (line ∷ []) = line
join_lines (line ∷ next ∷ lines) = line ++ 10 ∷ join_lines (next ∷ lines)

join-in_front :
    (c : ℕ) (lines : List Text) → lines ≢ [] → join_lines (in_front c lines) ≡ c ∷ join_lines lines
unfolding join_lines
join-in_front c [] h = absurd (h refl)
join-in_front c (line ∷ []) h = refl
join-in_front c (line ∷ next ∷ lines) h = refl

join-empty_line : (lines : List Text) → lines ≢ [] → join_lines ([] ∷ lines) ≡ 10 ∷ join_lines lines
unfolding join_lines
join-empty_line [] h = absurd (h refl)
join-empty_line (line ∷ lines) h = refl

split_lines-nonempty : (s : Text) → split_lines s ≢ []
unfolding split_lines
split_lines-nonempty [] e = cc
split_lines-nonempty (c ∷ s) e = ground (arith, split_lines-nonempty s)

-- The lines of a text, joined again, are the text.
pub join_lines-split_lines : (s : Text) → join_lines (split_lines s) ≡ s
unfolding join_lines split_lines
join_lines-split_lines [] = refl
join_lines-split_lines (c ∷ s) = elim (Bool-cases (c == 10)) [
  | inl ends ↦ rw ends (
      join-empty_line (split_lines s) (split_lines-nonempty s)
      ∙ rw (join_lines-split_lines s) (ap (λ (d : ℕ). d ∷ s) (sym ((==_iff c 10).0 ends))))
  | inr other ↦
      rw other
        (join-in_front c (split_lines s) (split_lines-nonempty s) ∙ rw (join_lines-split_lines s))
]
