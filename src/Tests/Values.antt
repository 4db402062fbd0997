-- ===== src/Tests/Values.antt =====
-- Small stores and inputs.
use dbal.Prelude.{◌≡◌, refl, none, some, [], ◌∷◌, arith}
use dbal.Map.{lookup, insert, contains}
use dbal.Result.{ok, reject_if}
use dbal.Types.{User, Session, CreateSessionInput}
use dbal.Store.{InMemoryStore, empty_data, init}
use dbal.Store.Ids.{generate_id}
use dbal.Session
use dbal.System.Invariant.{init-IsValid}

abbrev pub user : User
user = record { id = "u1"; username = "ann"; first_login = none }

-- One user and nothing else.
abbrev pub store_0 : InMemoryStore
store_0 = record init {
  contents = record empty_data { users = ("u1", user) ∷ ("u2", record user { id = "u2" }) ∷ [] };
}

abbrev pub login : CreateSessionInput
login = record {
  user_id = "u1";
  token = "t1";
  expires_at = 100;
  created_at = none;
  last_activity = none;
  ip_address = none;
  user_agent = none;
}

abbrev pub second_login : CreateSessionInput
second_login = record login { token = "t2"; expires_at = 20 }

abbrev pub session_1 : Session
session_1 = Session.new_session 5 store_0 login

abbrev pub store_1 : InMemoryStore
store_1 =
    Session.with_sessions (Session.count_session store_0) (insert session_1.id session_1 [])
      (insert "t1" session_1.id [])

pub create_1 : Session.create 5 store_0 login ≡ (ok session_1, store_1)
unfolding Session.create reject_if contains lookup
create_1 = refl

pub lookup_1 : lookup "session_00000001" store_1.sessions ≡ some session_1
unfolding lookup insert generate_id
lookup_1 = refl

pub store_0-IsValid : Session.Invariant.IsValid store_0
store_0-IsValid = init-IsValid.sessions

pub store_1-IsValid : Session.Invariant.IsValid store_1
unfolding Session.create reject_if contains lookup
store_1-IsValid =
    (Session.Invariant.create-IsValid 5 store_0 login store_0-IsValid (omega arith)).left

-- The first login is done, then the second.
abbrev pub session_2 : Session
session_2 = Session.new_session 6 store_1 second_login

abbrev pub store_2 : InMemoryStore
store_2 = (Session.create 6 store_1 second_login).1

pub store_2-IsValid : Session.Invariant.IsValid store_2
store_2-IsValid =
    (Session.Invariant.create-IsValid 6 store_1 second_login store_1-IsValid (omega arith)).left

pub lookup_2 : lookup "session_00000002" store_2.sessions ≡ some session_2
unfolding Session.create reject_if contains lookup insert generate_id
lookup_2 = refl
