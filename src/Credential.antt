-- ===== src/Credential.antt =====
-- libraries/dbal/production/src/entities/credential/crud/first_login_flag.hpp: whether a user has
-- logged in before, in the users of the in-memory store.
use dbal.Prelude.{
  String, ◌<>◌, ◌≡◌, refl, ap, Bool, true, false, Option, none, some, [], ◌∷◌, str_eq, is_empty,
  value_or, if◌then◌else◌, Bool-cases, inl, inr,
}
use dbal.Map.{Map}
use dbal.Result.{Result, ok, err, validation_error, not_found}
use dbal.Types.{User}
use dbal.Store.{InMemoryStore}

-- The first user with the name, in the order of the ids.
unfoldable pub find_user : String → Map User → Option User
find_user name [] = none
find_user name ((id, user) ∷ m) = if str_eq user.username name then some user else find_user name m

-- The loop of `setFirstLogin`, which assigns the first user with the name; `none` without one.
abbrev pub behind_user : String × User → Option (Map User) → Option (Map User)
behind_user entry none = none
behind_user entry (some m) = some (entry ∷ m)

unfoldable pub flag_user : String → Bool → Map User → Option (Map User)
flag_user name flag [] = none
flag_user name flag ((id, user) ∷ m) =
    let rest = flag_user name flag m in
    if str_eq user.username name
    then some ((id, record user { first_login = some flag }) ∷ m)
    else behind_user (id, user) rest

abbrev pub with_users : InMemoryStore → Map User → InMemoryStore
with_users s users = record s { contents = record s.contents { users = users } }

abbrev pub flagged : String → InMemoryStore → Option (Map User) → Result Bool × InMemoryStore
flagged name store none = (err (not_found ("User not found: " <> name)), store)
flagged name store (some users) = (ok true, with_users store users)

unfoldable pub set_first_login : InMemoryStore → String → Bool → Result Bool × InMemoryStore
unfolding flag_user
set_first_login store name flag =
    if is_empty name
    then (err (validation_error "username is required"), store)
    else flagged name store (flag_user name flag store.users)

abbrev pub flag_of : String → Option User → Result Bool
flag_of name none = err (not_found ("User not found: " <> name))
flag_of name (some user) = ok (value_or user.first_login false)

unfoldable pub get_first_login : InMemoryStore → String → Result Bool
unfolding find_user
get_first_login store name =
    if is_empty name
    then err (validation_error "username is required")
    else flag_of name (find_user name store.users)

-- The user that is flagged is the one that is found, and no user is found where none is flagged.
abbrev Flagged : String → Bool → Map User → Option (Map User) → Type 0
Flagged name flag m none = find_user name m ≡ none
Flagged name flag m (some users) = flag_of name (find_user name users) ≡ ok flag

behind-Flagged :
    (name id : String) (flag : Bool) (user : User) (m : Map User) (o : Option (Map User))
    → str_eq user.username name ≡ false
    → Flagged name flag m o
    → Flagged name flag ((id, user) ∷ m) (behind_user (id, user) o)
unfolding find_user
behind-Flagged name id flag user m none e h = rw e h
behind-Flagged name id flag user m (some users) e h = rw e h

flag_user-Flagged :
    (name : String) (flag : Bool) (m : Map User) → Flagged name flag m (flag_user name flag m)
unfolding flag_user find_user
flag_user-Flagged name flag [] = refl
flag_user-Flagged name flag ((id, user) ∷ m) = elim (Bool-cases (str_eq user.username name)) [
  | inl e ↦ rw e (rw e refl)
  | inr e ↦
      rw e (
        behind-Flagged name id flag user m (flag_user name flag m) e
          (flag_user-Flagged name flag m))
]

-- What a call that sets the flag returned is what the flag is then: the new flag after a success,
-- and after an error the error again.
abbrev pub expected : Bool → Result Bool → Result Bool
expected flag (ok done) = ok flag
expected flag (err e) = err e

flagged-expected :
    (name : String) (flag : Bool) (store : InMemoryStore) (o : Option (Map User))
    → Flagged name flag store.users o
    → flag_of name (find_user name (flagged name store o).1.users)
      ≡ expected flag (flagged name store o).0
flagged-expected name flag store none h = ap (flag_of name) h
flagged-expected name flag store (some users) h = h

-- After a call that sets the first-login flag of a user, reading it gives the flag that was set, or
-- the error of the call, if there is no such user or the name is empty.
pub get_first_login-set :
    (store : InMemoryStore) (name : String) (flag : Bool)
    → get_first_login (set_first_login store name flag).1 name
      ≡ expected flag (set_first_login store name flag).0
unfolding get_first_login set_first_login
get_first_login-set store name flag = elim (Bool-cases (is_empty name)) [
  | inl e ↦ rw e refl
  | inr e ↦ rw e (
      flagged-expected name flag store (flag_user name flag store.users)
        (flag_user-Flagged name flag store.users))
]
