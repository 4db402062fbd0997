-- ===== src/Bql/Actions.antt =====
-- libraries/dbal/production/src/bql/bql_parser.cpp: the forms that publish, start and run.
use dbal.Prelude.{◌&&◌, ◌||◌, Option, none, some, [], ◌++◌, if◌then◌else◌, drop, codes}
use dbal.Bql.Lexer.{Text, word, string}
use dbal.Bql.Cursor.{
  Cursor, advance, is_word, skip_article, skip_word, consume_words_until, value_of, is_empty_text,
  text_eq, to_lower,
}
use dbal.Bql.Lists.{parse_add_clause}
use dbal.Bql.Sentences.{
  sentence, publish, publish_workflow, clear, workflow, trigger, step, Reading, reads, fail,
  quoting, could_not_read, need, expect,
}

-- `as` and a title in quotes, or the empty title; the outer `none` is a title that is no string.
unfoldable pub parse_title : Cursor → Option (Text × Cursor)
unfolding is_word value_of
parse_title c =
    if is_word "as" c
    then elim (value_of string (advance c)) [
      | none ↦ none
      | some title ↦ some (title, advance (advance c))
    ]
    else some ([], c)

-- The path may be bare or in quotes.
unfoldable pub path_of : Cursor → Option Text
unfolding value_of
path_of c = elim (value_of word c) [ some path ↦ some path | none ↦ value_of string c ]

unfoldable pub parse_publish : Cursor → Text → Reading
unfolding skip_word parse_title path_of
parse_publish c line =
    let c' = advance c in
    if is_word "the" c'
    then expect (is_word "workflow" (advance c')) (could_not_read line)
        (reads (sentence publish_workflow) (advance (advance c')))
    else need (parse_title (skip_word "this" c').1)
        (fail (quoting "Could not read the title in" line))
        λ (title, c''). expect (is_word "at" c'') (fail (quoting "Missing \"at <path>\" in" line)) (
          need (path_of (advance c'')) (fail (quoting "Could not read the path in" line)) λ path.
            reads (record (sentence publish) { name = title; path = path }) (advance (advance c'')))

unfoldable pub parse_workflow_start : Cursor → Text → Reading
parse_workflow_start c line = expect (is_word "workflow" c) (could_not_read line) (
    expect (is_word "called" (advance c)) (fail (quoting "Missing \"called <name>\" in" line)) (
      need (value_of string (advance (advance c)))
        (fail (quoting "The workflow's name has to be in quotes, in" line))
        λ name. reads (record (sentence workflow) { name = name }) (drop 3 c)))

unfoldable pub parse_clear : Cursor → Text → Reading
unfolding skip_article parse_workflow_start
parse_clear c line =
    let c' = skip_article (advance c) in
    expect (is_word "new" c') (could_not_read line) (
      if is_word "workflow" (advance c')
      then parse_workflow_start (advance c') line
      else expect (is_word "page" (advance c')) (could_not_read line)
          (reads (sentence clear) (advance (advance c'))))

abbrev form_created : Text
form_created = codes "FormSubmission.created"

abbrev user_created : Text
user_created = codes "User.created"

-- `someone submits the "..." form`.
unfoldable pub parse_named_form : Cursor → Text → Reading
parse_named_form c line =
    need (value_of string (drop 3 c))
      (fail (quoting "The form's name has to be in quotes, in" line))
      λ form.
        expect (is_word "form" (drop 4 c)) (fail (quoting "Missing \"form\" in" line))
          (reads (record (sentence trigger) { event = form_created; form = form }) (drop 5 c))

unfoldable pub parse_phrase : Text → Cursor → Reading
parse_phrase phrase c =
    let lowered = to_lower phrase in
    if text_eq lowered (codes "someone submits a form")
      || text_eq lowered (codes "a form is submitted")
    then reads (record (sentence trigger) { event = form_created }) c
    else if text_eq lowered (codes "someone joins") || text_eq lowered (codes "someone signs up")
    then reads (record (sentence trigger) { event = user_created }) c
    else fail (
        codes "Don't know when \""
        ++ phrase
        ++ codes "\" is. Try \"someone submits a form\" or \"someone joins\".")

unfoldable pub parse_run_when : Cursor → Text → Reading
unfolding skip_word consume_words_until parse_named_form parse_phrase
parse_run_when c line =
    let c' = (skip_word "it" (advance c)).1 in
    expect (is_word "when" c') (fail (quoting "Missing \"when\" in" line)) (
      let c'' = advance c' in
      if is_word "someone" c'' && is_word "submits" (drop 1 c'') && is_word "the" (drop 2 c'')
      then parse_named_form c'' line
      else parse_phrase (consume_words_until [] c'').0 (consume_words_until [] c'').1)

unfoldable pub parse_then : Cursor → Text → Reading
parse_then c line =
    need (parse_add_clause (advance c)) (fail (quoting "Could not read the step in" line))
      λ (clause, c').
        if is_empty_text clause.block_name
        then fail (quoting "Could not read the step in" line)
        else reads (record (sentence step) { step_name = clause.block_name; attrs = clause.attrs })
            c'
