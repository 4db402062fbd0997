-- ===== src/Bql/Lists/Ends.antt =====
-- libraries/dbal/production/src/bql/bql_parser.cpp: the tokens that the readers and the
-- loops over attributes and names leave.
use dbal.Prelude.{
  ℕ, zero, suc, ◌≤◌, ◌<◌, ◌≡◌, refl, Bool, true, false, Option, none, some, List, [], ◌∷◌, arith,
  length, String, Bool-cases, Option-cases, inl, inr,
}
use dbal.Bql.Lexer.{Text, TokenType, word, string, punct}
use dbal.Bql.Cursor.{
  Cursor, words_until, skip_article, consume_separator, parse_of, parse_value, parse_attr_item,
  BqlAttr, skip_word, skip_comma, is_type, advance, joined_value,
}
use dbal.Bql.Lists.{more_attrs, attr_round, names_from, name_round, prepend}

words_until-shorter : (stop : List String) (c : Cursor) → length (words_until stop c).1 ≤ length c
unfolding words_until
words_until-shorter stop [] = omega arith
words_until-shorter stop (t ∷ c) = ground (arith, words_until-shorter stop c)

skip_word-shorter : (s : String) (c : Cursor) → length (skip_word s c).1 ≤ length c
unfolding skip_word
skip_word-shorter s [] = omega arith
skip_word-shorter s (t ∷ c) = ground arith

skip_word-found :
    (s : String) (c : Cursor) → (skip_word s c).0 ≡ true → length (skip_word s c).1 < length c
unfolding skip_word
skip_word-found s [] h = cc
skip_word-found s (t ∷ c) h = ground arith

skip_comma-shorter : (c : Cursor) → length (skip_comma c).1 ≤ length c
unfolding skip_comma
skip_comma-shorter [] = omega arith
skip_comma-shorter (t ∷ c) = ground arith

skip_comma-found : (c : Cursor) → (skip_comma c).0 ≡ true → length (skip_comma c).1 < length c
unfolding skip_comma
skip_comma-found [] h = cc
skip_comma-found (t ∷ c) h = ground arith

skip_article-shorter : (c : Cursor) → length (skip_article c) ≤ length c
unfolding skip_article
skip_article-shorter [] = omega arith
skip_article-shorter (t ∷ c) = ground arith

-- A separator that was there is passed.
separator-shorter :
    (c : Cursor) → (consume_separator c).0 ≡ true → length (consume_separator c).1 < length c
unfolding consume_separator
separator-shorter c h = ground (
  arith,
  skip_comma-found c,
  skip_comma-shorter c,
  skip_word-found "and" (skip_comma c).1,
  skip_word-shorter "and" (skip_comma c).1,
)

advance-shorter : (c : Cursor) → length (advance c) ≤ length c
advance-shorter [] = omega arith
advance-shorter (t ∷ c) = omega arith

joined_value-left :
    (ws : List Text) (c : Cursor) {v : Text} {c' : Cursor}
    → joined_value ws c ≡ some (v, c')
    → length c' ≡ length c
joined_value-left [] c h = cc
joined_value-left (w ∷ ws) c h = ground arith

value-shorter :
    (c : Cursor) {v : Text} {c' : Cursor} → parse_value c ≡ some (v, c') → length c' ≤ length c
unfolding parse_value
value-shorter [] h = cc
value-shorter (t ∷ c) h = by_type t.type h
  where
    by_type :
        (k : TokenType) {v : Text} {c' : Cursor}
        → (elim k [
          | string ↦ some (t.value, c)
          | _ ↦
              joined_value (words_until ("and" ∷ []) (t ∷ c)).0 (words_until ("and" ∷ []) (t ∷ c)).1
        ])
          ≡ some (v, c')
        → length c' ≤ length (t ∷ c)
    by_type string h = ground arith
    by_type word h = ground (
      arith,
      words_until-shorter ("and" ∷ []) (t ∷ c),
      joined_value-left (words_until ("and" ∷ []) (t ∷ c)).0 (words_until ("and" ∷ []) (t ∷ c)).1 h,
    )
    by_type punct h = ground (
      arith,
      words_until-shorter ("and" ∷ []) (t ∷ c),
      joined_value-left (words_until ("and" ∷ []) (t ∷ c)).0 (words_until ("and" ∷ []) (t ∷ c)).1 h,
    )

-- An item leaves no more tokens than there were.
of-shorter :
    (key : Text) (c : Cursor) {a : BqlAttr} {c' : Cursor}
    → parse_of key c ≡ some (a, c')
    → length c' ≤ length c
unfolding parse_of
of-shorter key c h = elim (Option-cases (parse_value (advance c))) [
  | inl e ↦ ground arith
  | inr ((v, rest), e) ↦ ground (arith, value-shorter (advance c) e, advance-shorter c)
]

item-shorter :
    (c : Cursor) {a : BqlAttr} {c' : Cursor}
    → parse_attr_item c ≡ some (a, c')
    → length c' ≤ length c
unfolding parse_attr_item
item-shorter c h = omega (
  arith,
  of-shorter _ _ h,
  words_until-shorter ("of" ∷ []) (skip_article c),
  skip_article-shorter c,
)

attr_round_total :
    (again : Cursor → Option (Option (List BqlAttr × Cursor))) (r : Bool × Cursor)
    → (r.0 ≡ true
        → (c : Cursor) → length c ≤ length r.1
        → (x : Option (List BqlAttr × Cursor)) × (again c ≡ some x))
    → (x : Option (List BqlAttr × Cursor)) × (attr_round again r ≡ some x)
unfolding attr_round
attr_round_total again (false, c) h = (some ([], c), refl)
attr_round_total again (true, c) h = elim (Option-cases (parse_attr_item c)) [
  | inl e ↦ (none, rw (e, attr_round))
  | inr ((a, c'), e) ↦
      let (x, e') = h refl c' (item-shorter c e) in (prepend a x, rw (e, attr_round) (rw e'))
]

-- With more fuel than there are tokens, the loop over the attributes of a list ends.
pub more_attrs_total :
    (fuel : ℕ) (c : Cursor)
    → length c < fuel
    → (r : Option (List BqlAttr × Cursor)) × (more_attrs fuel c ≡ some r)
unfolding more_attrs
more_attrs_total zero c h = elim h [ ]
more_attrs_total (suc fuel) c h =
    attr_round_total (more_attrs fuel) (consume_separator c)
      λ found c' l. more_attrs_total fuel c' (omega (arith, separator-shorter c found))

name_round_total :
    (name : Text) (again : Cursor → Option (List Text × Cursor)) (r : Bool × Cursor)
    → (r.0 ≡ true → (x : List Text × Cursor) × (again r.1 ≡ some x))
    → (x : List Text × Cursor) × (name_round name again r ≡ some x)
unfolding name_round
name_round_total name again (false, c) h = ((name ∷ [], c), refl)
name_round_total name again (true, c) h =
    let ((names, c'), e) = h refl in ((name ∷ names, c'), rw e)

-- With more fuel than there are tokens, the loop over the names of a list ends.
pub names_from_total :
    (fuel : ℕ) (c : Cursor)
    → length c < fuel
    → (r : List Text × Cursor) × (names_from fuel c ≡ some r)
unfolding names_from
names_from_total zero c h = elim h [ ]
names_from_total (suc fuel) [] h = (([], []), refl)
names_from_total (suc fuel) (t ∷ c) h = elim (Bool-cases (is_type t.type string)) [
  | inl is_string ↦
      let (x, e) = name_round_total t.value (names_from fuel) (consume_separator c) λ found.
        names_from_total fuel (consume_separator c).1 (omega (arith, separator-shorter c found)) in
      (x, rw (is_string, names_from) e)
  | inr other ↦ (([], t ∷ c), rw (other, names_from))
]
