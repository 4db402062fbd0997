-- ===== src/Tests/Logins.antt =====
-- libraries/dbal/production/src/entities/credential: the theorem at a store with two users.
use dbal.Prelude.{◌≡◌, refl, true, none, [], ◌∷◌}
use dbal.Result.{ok}
use dbal.Types.{User}
use dbal.Store.{InMemoryStore, empty_data, init}
use dbal.Credential.{
  set_first_login, get_first_login, flag_user, find_user, expected, get_first_login-set,
}

abbrev first : User
first = record { id = "user_1"; username = "ann"; first_login = none }

abbrev second : User
second = record { id = "user_2"; username = "bob"; first_login = none }

abbrev users : InMemoryStore
users = record init {
  contents = record empty_data { users = ("user_1", first) ∷ ("user_2", second) ∷ [] };
}

get_first_login-set_example :
    get_first_login (set_first_login users "bob" true).1 "bob"
    ≡ expected true (set_first_login users "bob" true).0
get_first_login-set_example = get_first_login-set users "bob" true

bob_is_flagged : get_first_login (set_first_login users "bob" true).1 "bob" ≡ ok true
unfolding get_first_login set_first_login flag_user find_user
bob_is_flagged = refl
