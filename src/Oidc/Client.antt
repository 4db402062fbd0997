-- ===== src/Oidc/Client.antt =====
-- libraries/dbal/production/src/oidc/tokens: the calls of dbal::Client that the stores of tokens
-- make. The client passes them to a database adapter, so it is a parameter, with its documented
-- behaviour on a database that answers as hypotheses.
pub mod Memory
pub mod Rows
use dbal.Prelude.{
  ℕ, String, ◌≡◌, Bool, true, false, is_empty, List, [], ◌∷◌, ◌++◌, map, str_eq, if◌then◌else◌,
  take, Member,
}
use dbal.Result.{Result, ok, is_ok}
use dbal.Listing.{filter_list}

-- The rows of one kind of entity: the text fields by which they are listed, and the times that are
-- written into them.
pub record Schema (Row : Type 0) : Type 0 where
  pub id : Row → String
  pub field : String → Row → String
  pub assign : String → ℕ → Row → Row
  pub with_id : String → Row → Row

pub record Client (Row : Type 0) : Type 1 where
  pub State : Type 0
  pub list_entities : String → String → ℕ → State → Result (List Row)
  pub get_entity : String → State → Result Row
  pub create_entity : Row → State → Result Row × State
  pub update_entity : String → String → ℕ → State → Result Row × State

-- `field` of the row is `value`.
abbrev pub matches : {Row : Type 0} → Schema Row → String → String → Row → Bool
matches schema field value r = str_eq (schema.field field r) value

-- The row with the id has the time in the field, and each other row is as it was.
abbrev pub assigned : {Row : Type 0} → Schema Row → String → String → ℕ → Row → Row
assigned schema id field time r = if str_eq (schema.id r) id then schema.assign field time r else r

-- `rows` are the rows that the database holds, in the order in which it lists them.
pub record IsLawful {Row : Type 0} (schema : Schema Row) (c : Client Row)
    (rows : c.State → List Row) : Type 0 where
  -- A list holds the rows that the filter passes, up to the limit.
  pub lists :
      (field value : String) (limit : ℕ) (s : c.State)
      → c.list_entities field value limit s
        ≡ ok (take limit (filter_list (matches schema field value) (rows s)))
  -- What is got for an id is a row with that id.
  pub gets :
      (id : String) (s : c.State) (r : Row)
      → c.get_entity id s ≡ ok r
      → Member r (rows s) × (schema.id r ≡ id)
  -- A creation adds the row under an id that is not empty, and returns it.
  pub creates :
      (r : Row) (s : c.State)
      → (id : String) × (is_empty id ≡ false)
        × ((c.create_entity r s).0 ≡ ok (schema.with_id id r))
        × (rows (c.create_entity r s).1 ≡ rows s ++ schema.with_id id r ∷ [])
  -- An update writes the field of the row with the id, and fails only if there is none.
  pub updates :
      (id field : String) (time : ℕ) (s : c.State)
      → rows (c.update_entity id field time s).1 ≡ map (assigned schema id field time) (rows s)
  pub finds :
      (r : Row) (field : String) (time : ℕ) (s : c.State)
      → Member r (rows s)
      → is_ok (c.update_entity (schema.id r) field time s).0 ≡ true
