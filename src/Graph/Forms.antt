-- ===== src/Graph/Forms.antt =====
-- libraries/dbal/production/src/workflow/wf_graph_order.cpp: the workflow that a form's submission
-- runs. A row is a JSON value: what `isPublished` and `formName` hold are functions of it, `none` for
-- a field that is missing or of another type.
use dbal.Prelude.{
  String, Bool, true, false, not, ◌&&◌, Option, none, some, List, [], ◌∷◌, str_eq, is_empty,
  value_or, if◌then◌else◌,
}

module _ {Row : Type 0} (is_published : Row → Option Bool) (form_name : Row → Option String) where
  abbrev pub unpublished : Option Bool → Bool
  unpublished none = false
  unpublished (some b) = not b

  abbrev pub is_draft : Row → Bool
  is_draft row = unpublished (is_published row)

  abbrev pub form_name_of : Row → String
  form_name_of row = value_or (form_name row) ""

  -- The test for the form, and the one for a row that names none.
  abbrev pub is_exact : String → Row → Bool
  is_exact form row = not (is_empty (form_name_of row)) && str_eq (form_name_of row) form

  abbrev pub keep_first : Option Row → Row → Option Row
  keep_first none row = some row
  keep_first (some first) row = some first

  -- The loop, from the row without a form that it has kept.
  unfoldable pub best_from : String → Option Row → List Row → Option Row
  best_from form any_form [] = any_form
  best_from form any_form (row ∷ rows) = elim (is_draft row) [
    | true ↦ best_from form any_form rows
    | false ↦ elim (is_exact form row) [
      | true ↦ some row
      | false ↦ elim (is_empty (form_name_of row)) [
        | true ↦ best_from form (keep_first any_form row) rows
        | false ↦ best_from form any_form rows
      ]
    ]
  ]

  -- `none` is the JSON null.
  unfoldable pub best_for_form : List Row → String → Option Row
  unfolding best_from
  best_for_form rows form = best_from form none rows

  -- The first row that passes a test.
  abbrev pub first_where : (Row → Bool) → List Row → Option Row
  first_where p [] = none
  first_where p (row ∷ rows) = if p row then some row else first_where p rows

  -- The first of two that is there.
  abbrev pub or_first : Option Row → Option Row → Option Row
  or_first none o = o
  or_first (some row) o = some row

  abbrev pub serves_form : String → Row → Bool
  serves_form form row = not (is_draft row) && is_exact form row

  abbrev pub serves_any : Row → Bool
  serves_any row = not (is_draft row) && is_empty (form_name_of row)
