-- ===== src/Bql/Lists/Attrs.antt =====
-- libraries/dbal/production/src/bql/bql_parser.cpp: the readers on spelled names and attributes.
use dbal.Prelude.{
  ℕ, zero, suc, ◌≤◌, ◌<◌, ◌≡◌, refl, ap, ◌∙◌, true, false, some, List, [], ◌∷◌, arith, length,
  String,
}
use dbal.Bql.Lexer.{Text}
use dbal.Bql.Cursor.{
  Cursor, words_until, stops, join_words, is_empty_text, is_one_of, text_eq, consume_separator,
  parse_of, parse_attr_item,
}
use dbal.Bql.Lists.{attr_round, more_attrs, parse_attr_list}
use dbal.Bql.Spelling.{
  word_tokens, keyword, string_token, attr_tokens, and_tokens, AttrWords, attr_of, attrs_of,
  AreNameWords, IsName, IsAttr, AreAttrs,
}

abbrev pub StopsAt : List String → Cursor → Type 0
StopsAt stop [] = Unit
StopsAt stop (t ∷ c) = stops stop t ≡ true

pub words_until-word_tokens :
    (stop : List String) (ws : List Text) (rest : Cursor)
    → AreNameWords stop ws
    → StopsAt stop rest
    → words_until stop (word_tokens ws rest) ≡ (ws, rest)
unfolding words_until word_tokens AreNameWords
words_until-word_tokens stop [] [] h s = refl
words_until-word_tokens stop [] (t ∷ c) h s = rw s
words_until-word_tokens stop (w ∷ ws) rest h s =
    rw h.2 (rw (words_until-word_tokens stop ws rest h.3 s))

pub join_words-nonempty :
    (stop : List String) (ws : List Text) → IsName stop ws → is_empty_text (join_words ws) ≡ false
unfolding join_words AreNameWords
join_words-nonempty stop [] h = absurd (h.0 refl)
join_words-nonempty stop ([] ∷ ws) h = absurd (h.1.0 refl)
join_words-nonempty stop ((c ∷ w) ∷ []) h = refl
join_words-nonempty stop ((c ∷ w) ∷ v ∷ ws) h = refl

length-word_tokens : (ws : List Text) (rest : Cursor) → length rest ≤ length (word_tokens ws rest)
unfolding word_tokens
length-word_tokens [] rest = omega arith
length-word_tokens (w ∷ ws) rest = omega (arith, length-word_tokens ws rest)

parse_of-value :
    (key value : Text) (rest : Cursor)
    → is_empty_text key ≡ false
    → parse_of key (keyword "of" ∷ string_token value ∷ rest)
      ≡ some (record { key = key; value = value }, rest)
unfolding parse_of text_eq
parse_of-value key value rest h = rw h

-- The reader of an attribute on its words.
pub parse_attr_item-attr_tokens :
    (a : AttrWords) (rest : Cursor)
    → IsAttr a
    → parse_attr_item (attr_tokens a rest) ≡ some (attr_of a, rest)
unfolding parse_attr_item text_eq is_one_of
parse_attr_item-attr_tokens a rest h =
    let after : Cursor = keyword "of" ∷ string_token a.value ∷ rest in
    ap (λ (r : List Text × Cursor). parse_of (join_words r.0) r.1)
      (words_until-word_tokens ("of" ∷ []) a.key after h.0.1 refl)
    ∙ parse_of-value (join_words a.key) a.value rest (join_words-nonempty ("of" ∷ []) a.key h.0)

separated : (c : Cursor) → consume_separator (keyword "and" ∷ c) ≡ (true, c)
unfolding consume_separator text_eq
separated c = refl

-- What does not go on with a separator.
abbrev pub EndsList : Cursor → Type 0
EndsList rest = consume_separator rest ≡ (false, rest)

more_attrs-and_tokens :
    (attrs : List AttrWords) (rest : Cursor) (fuel : ℕ)
    → AreAttrs attrs
    → EndsList rest
    → length attrs < fuel
    → more_attrs fuel (and_tokens attrs rest) ≡ some (some (attrs_of attrs, rest))
unfolding more_attrs and_tokens attrs_of AreAttrs
more_attrs-and_tokens attrs rest zero h e l = elim l [ ]
more_attrs-and_tokens [] rest (suc fuel) h e l = ap (attr_round (more_attrs fuel)) e
more_attrs-and_tokens (a ∷ attrs) rest (suc fuel) h e l =
    let after = and_tokens attrs rest in
    ap (attr_round (more_attrs fuel)) (separated (attr_tokens a after))
    ∙ rw (parse_attr_item-attr_tokens a after h.0, attr_round)
        (rw (more_attrs-and_tokens attrs rest fuel h.1 e (omega arith)))

length-and_tokens :
    (attrs : List AttrWords) (rest : Cursor) → length attrs ≤ length (and_tokens attrs rest)
unfolding and_tokens
length-and_tokens [] rest = omega arith
length-and_tokens (a ∷ attrs) rest = omega (
  arith,
  length-and_tokens attrs rest,
  length-word_tokens a.key (keyword "of" ∷ string_token a.value ∷ and_tokens attrs rest),
)

-- The list of attributes that `with` is followed by.
pub parse_attr_list-attr_tokens :
    (a : AttrWords) (attrs : List AttrWords) (rest : Cursor)
    → IsAttr a
    → AreAttrs attrs
    → EndsList rest
    → parse_attr_list (attr_tokens a (and_tokens attrs rest))
      ≡ some (attr_of a ∷ attrs_of attrs, rest)
unfolding parse_attr_list
parse_attr_list-attr_tokens a attrs rest h hs e =
    rw (parse_attr_item-attr_tokens a (and_tokens attrs rest) h, parse_attr_list)
      (rw (
        more_attrs-and_tokens attrs rest (suc (length (and_tokens attrs rest))) hs e
          (omega (arith, length-and_tokens attrs rest))))
