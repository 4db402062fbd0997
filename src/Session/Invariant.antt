-- ===== src/Session/Invariant.antt =====
-- The consistency of the sessions, their ids and their index by token under the operations of
-- libraries/dbal/production/src/entities/session.
use dbal.Prelude.{suc, ◌<◌, String, ◌≡◌, refl, some, List, [], ◌∷◌, Option-cases, inl, inr}
use dbal.Map.{lookup, not-contains, lookup-insert_self}
use dbal.Result.{Leaves, leaves, Leaves-reject_if, Leaves-find_or, Leaves-when_set}
use dbal.Types.{Timestamp, Session, CreateSessionInput, UpdateSessionInput, ListOptions}
use dbal.Store.{InMemoryStore}
use dbal.Store.Ids.{fits_buffer, int_end}
use dbal.Store.Table.{IsTable, IsTable-insert, IsTable-erase, IsTable-replace, IsTable-rekey}
use dbal.Session.{
  create, remove, get, get_by_token, update, update_user, update_token, update_rest, put_session,
  drop_session, new_session, erase_found, erase_all, clean_expired, list, set_rest,
}

abbrev pub token_of : Session → String
token_of s = s.token

abbrev pub id_of : Session → String
id_of s = s.id

abbrev pub IsValid : InMemoryStore → Type 0
IsValid s = IsTable "session" token_of id_of s.session_counter s.sessions s.session_tokens

drop_session-IsValid :
    (s : InMemoryStore) (id : String) (session : Session)
    → IsValid s
    → lookup id s.sessions ≡ some session
    → IsValid (drop_session s id session)
drop_session-IsValid s id session v old = IsTable-erase "session" token_of id_of v id session old

pub create-IsValid :
    (now : Timestamp) (s : InMemoryStore) (input : CreateSessionInput)
    → IsValid s
    → suc s.session_counter < int_end
    → Leaves IsValid (create now s input)
unfolding create
create-IsValid now s input v small = Leaves-reject_if _ _ _ _ v λ _. Leaves-reject_if _ _ _ _ v λ _.
    Leaves-reject_if _ _ _ _ v λ _. Leaves-reject_if _ _ _ _ v λ free. leaves _ _ (
      IsTable-insert "session" token_of id_of v (new_session now s input)
        (unfold fits_buffer in refl) small refl (not-contains _ _ free))

pub remove-IsValid : (s : InMemoryStore) (id : String) → IsValid s → Leaves IsValid (remove s id)
unfolding remove
remove-IsValid s id v =
    Leaves-reject_if _ _ _ _ v
      λ _. Leaves-find_or _ _ _ _ v (λ a e. leaves _ _ (drop_session-IsValid s id a v e))

pub get-IsValid :
    (now : Timestamp) (s : InMemoryStore) (id : String) → IsValid s → Leaves IsValid (get now s id)
unfolding get
get-IsValid now s id v = Leaves-reject_if _ _ _ _ v λ _.
    Leaves-find_or _ _ _ _ v
      λ a e. Leaves-reject_if _ _ _ _ (drop_session-IsValid s id a v e) (λ _. leaves _ _ v)

pub get_by_token-IsValid :
    (now : Timestamp) (s : InMemoryStore) (token : String)
    → IsValid s
    → Leaves IsValid (get_by_token now s token)
unfolding get_by_token
get_by_token-IsValid now s token v =
    Leaves-reject_if _ _ _ _ v λ _. Leaves-find_or _ _ _ _ v (λ id _. get-IsValid now s id v)

-- In the stages of `update` the store holds `a` under `id`.
update_token-IsValid :
    (s : InMemoryStore) (id : String) (a : Session) (input : UpdateSessionInput)
    → IsValid s
    → lookup id s.sessions ≡ some a
    → Leaves IsValid (update_token s id a input)
unfolding update_token update_rest
update_token-IsValid s id a input v held =
    Leaves-when_set _ _ _
      (leaves _ _
        (IsTable-replace "session" token_of id_of v id a (set_rest input a) held refl refl))
      λ token _. Leaves-reject_if _ _ _ _ v λ _. Leaves-reject_if _ _ _ _ v λ free.
        let b : Session = record a { token = token } in
        leaves _ _ (
          IsTable-replace "session" token_of id_of
            (IsTable-rekey "session" token_of id_of v id a b held refl free) id b (set_rest input b)
            (lookup-insert_self id b s.sessions) refl refl)

update_user-IsValid :
    (s : InMemoryStore) (id : String) (a : Session) (input : UpdateSessionInput)
    → IsValid s
    → lookup id s.sessions ≡ some a
    → Leaves IsValid (update_user s id a input)
unfolding update_user
update_user-IsValid s id a input v held =
    Leaves-when_set _ _ _ (update_token-IsValid s id a input v held) λ user _.
      Leaves-reject_if _ _ _ _ v λ _. Leaves-reject_if _ _ _ _ v λ _.
        let b : Session = record a { user_id = user } in
        update_token-IsValid (put_session s id b) id b input
          (IsTable-replace "session" token_of id_of v id a b held refl refl)
          (lookup-insert_self id b s.sessions)

pub update-IsValid :
    (s : InMemoryStore) (id : String) (input : UpdateSessionInput)
    → IsValid s
    → Leaves IsValid (update s id input)
unfolding update
update-IsValid s id input v =
    Leaves-reject_if _ _ _ _ v
      λ _. Leaves-find_or _ _ _ _ v (λ a e. update_user-IsValid s id a input v e)

erase_found-IsValid : (s : InMemoryStore) (id : String) → IsValid s → IsValid (erase_found s id)
unfolding erase_found
erase_found-IsValid s id v = elim (Option-cases (lookup id s.sessions)) [
  | inl e ↦ rw (e, erase_found) v
  | inr (a, e) ↦ rw (e, erase_found) (drop_session-IsValid s id a v e)
]

erase_all-IsValid : (s : InMemoryStore) (ids : List String) → IsValid s → IsValid (erase_all s ids)
unfolding erase_all
erase_all-IsValid s [] v = v
erase_all-IsValid s (id ∷ ids) v =
    erase_all-IsValid (erase_found s id) ids (erase_found-IsValid s id v)

pub clean_expired-IsValid :
    (now : Timestamp) (s : InMemoryStore) → IsValid s → Leaves IsValid (clean_expired now s)
unfolding clean_expired
clean_expired-IsValid now s v = leaves _ _ (erase_all-IsValid s _ v)

pub list-IsValid :
    (now : Timestamp) (s : InMemoryStore) (options : ListOptions)
    → IsValid s
    → IsValid (list now s options).1
unfolding list
list-IsValid now s options v = (clean_expired-IsValid now s v).left
