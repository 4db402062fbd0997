-- ===== src/Session/Frame.antt =====
-- What the operations of libraries/dbal/production/src/entities/session
-- write: a property that the writes of the sessions keep, the operations keep.
use dbal.Prelude.{String, List, [], ◌∷◌, Option-cases, inl, inr}
use dbal.Map.{Map, lookup}
use dbal.Result.{Leaves, leaves, leaves_rules}
use dbal.Types.{Timestamp, Session, CreateSessionInput, UpdateSessionInput, ListOptions}
use dbal.Store.{InMemoryStore}
use dbal.Session.{
  create, remove, get, get_by_token, update, update_user, update_token, update_rest, erase_found,
  erase_all, clean_expired, list, with_sessions, count_session,
}

module _ (P : InMemoryStore → Type 0)
    (write : (s : InMemoryStore) (m : Map Session) (ix : Map String)
      → P s
      → P (with_sessions s m ix)) where
  pub remove-keeps : (s : InMemoryStore) (id : String) → P s → Leaves P (remove s id)
  unfolding remove
  remove-keeps s id h = search (leaves_rules, write) depth 8

  pub get-keeps :
      (now : Timestamp) (s : InMemoryStore) (id : String) → P s → Leaves P (get now s id)
  unfolding get
  get-keeps now s id h = search (leaves_rules, write) depth 8

  pub get_by_token-keeps :
      (now : Timestamp) (s : InMemoryStore) (token : String)
      → P s
      → Leaves P (get_by_token now s token)
  unfolding get_by_token
  get_by_token-keeps now s token h = search (leaves_rules, get-keeps) depth 8

  update_token-keeps :
      (s : InMemoryStore) (id : String) (a : Session) (input : UpdateSessionInput)
      → P s
      → Leaves P (update_token s id a input)
  unfolding update_token update_rest
  update_token-keeps s id a input h = search (leaves_rules, write) depth 10

  update_user-keeps :
      (s : InMemoryStore) (id : String) (a : Session) (input : UpdateSessionInput)
      → P s
      → Leaves P (update_user s id a input)
  unfolding update_user
  update_user-keeps s id a input h = search (leaves_rules, write, update_token-keeps) depth 10

  pub update-keeps :
      (s : InMemoryStore) (id : String) (input : UpdateSessionInput)
      → P s
      → Leaves P (update s id input)
  unfolding update
  update-keeps s id input h = search (leaves_rules, update_user-keeps) depth 8

  erase_all-keeps : (s : InMemoryStore) (ids : List String) → P s → P (erase_all s ids)
  unfolding erase_all erase_found
  erase_all-keeps s [] h = h
  erase_all-keeps s (id ∷ ids) h =
      erase_all-keeps (erase_found s id) ids (elim (Option-cases (lookup id s.sessions)) [
        | inl e ↦ rw (e, erase_found) h
        | inr (a, e) ↦ rw (e, erase_found) (write s _ _ h)
      ])

  pub clean_expired-keeps :
      (now : Timestamp) (s : InMemoryStore) → P s → Leaves P (clean_expired now s)
  unfolding clean_expired
  clean_expired-keeps now s h = leaves _ _ (erase_all-keeps s _ h)

  pub list-keeps :
      (now : Timestamp) (s : InMemoryStore) (options : ListOptions) → P s → P (list now s options).1
  unfolding list
  list-keeps now s options h = (clean_expired-keeps now s h).left

module _ (P : InMemoryStore → Type 0)
    (write : (s : InMemoryStore) (m : Map Session) (ix : Map String)
      → P s
      → P (with_sessions s m ix))
    (count : (s : InMemoryStore) → P s → P (count_session s)) where
  pub create-keeps :
      (now : Timestamp) (s : InMemoryStore) (input : CreateSessionInput)
      → P s
      → Leaves P (create now s input)
  unfolding create
  create-keeps now s input h = search (leaves_rules, write, count) depth 12
