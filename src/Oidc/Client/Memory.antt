-- ===== src/Oidc/Client/Memory.antt =====
-- libraries/dbal/production/src/oidc/tokens: a client that holds its rows in a list.
use dbal.Prelude.{
  String, ◌≡◌, refl, sym, subst, true, false, Option, none, some, List, [], ◌∷◌, ◌++◌, map, str_eq,
  eq_refl, eq_iff, if◌then◌else◌, take, length, Member, inl, inr, Bool-cases,
}
use dbal.Result.{Result, ok, err, is_ok, not_found}
use dbal.Listing.{filter_list}
use dbal.Store.Ids.{generate_id, generate_id-not-empty}
use dbal.Oidc.Client.{Client, Schema, IsLawful, matches, assigned}

module _ {Row : Type 0} (schema : Schema Row) where
  abbrev pub find_row : String → List Row → Option Row
  find_row id [] = none
  find_row id (r ∷ rs) = if str_eq (schema.id r) id then some r else find_row id rs

  abbrev pub updated : Option Row → Result Row
  updated none = err (not_found "no such row")
  updated (some r) = ok r

  abbrev pub memory : Client Row
  memory = record {
    State = List Row;
    list_entities =
        λ field value limit rows. ok (take limit (filter_list (matches schema field value) rows));
    get_entity = λ id rows. updated (find_row id rows);
    create_entity = λ row rows.
        let new = schema.with_id (generate_id "row" (length rows)) row in
        (ok new, rows ++ new ∷ []);
    update_entity = λ id field time rows.
        (updated (find_row id rows), map (assigned schema id field time) rows);
  }

  updated-is_ok :
      (r : Row) (rows : List Row)
      → Member r rows
      → is_ok (updated (find_row (schema.id r) rows)) ≡ true
  updated-is_ok r [] m = absurd m
  updated-is_ok r (x ∷ rows) m = elim (Bool-cases (str_eq (schema.id x) (schema.id r))) [
    | inl e ↦ rw e refl
    | inr e ↦ rw e (elim m [
      | inl same ↦ absurd (
          cc (
            subst (λ (k : Row). str_eq (schema.id k) (schema.id r) ≡ false) (sym same) e,
            eq_refl (schema.id r),
          ))
      | inr later ↦ updated-is_ok r rows later
    ])
  ]

  found-Member :
      (id : String) (rows : List Row) (r : Row)
      → updated (find_row id rows) ≡ ok r
      → Member r rows × (schema.id r ≡ id)
  found-Member id [] r h = absurd (cc h)
  found-Member id (x ∷ rows) r h = elim (Bool-cases (str_eq (schema.id x) id)) [
    | inl e ↦
        let same : x ≡ r = cc (rw e at h) in
        (inl (sym same), subst (λ (k : Row). schema.id k ≡ id) same ((eq_iff (schema.id x) id).0 e))
    | inr e ↦ let (m, at_id) = found-Member id rows r (rw e at h) in (inr m, at_id)
  ]

  pub memory-IsLawful : IsLawful schema memory (λ rows. rows)
  memory-IsLawful = record {
    lists = λ field value limit s. refl;
    gets = λ id s r h. found-Member id s r h;
    creates = λ r s. (
      generate_id "row" (length s),
      generate_id-not-empty "row" (length s) (λ e. cc e),
      refl,
      refl,
    );
    updates = λ id field time s. refl;
    finds = λ r field time s m. updated-is_ok r s m;
  }
