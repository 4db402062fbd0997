-- ===== src/Tests/Sessions.antt =====
-- The theorems on sessions at concrete stores.
use dbal.Prelude.{◌≤◌, ◌≡◌, ◌≢◌, ◌↔◌, refl, none, some, List, [], ◌∷◌, arith, length, Member}
use dbal.Prelude.Int.{pos}
use dbal.Map.{lookup, insert, erase, contains, values}
use dbal.Result.{ok, reject_if, find_or, when_set}
use dbal.Types.{Session, UpdateSessionInput, ListOptions}
use dbal.Store.{InMemoryStore}
use dbal.Store.Ids.{generate_id}
use dbal.Listing.{done}
use dbal.Session
use dbal.Session.Tokens.{get_by_token-create}
use dbal.Session.Expiry.{unexpired, clean_expired-lookup, IsShown, list-IsShown}
use dbal.Session.Updates.{assigned, Assigns, update-assigned, update-moves_token}
use dbal.Tests.Values.{
  store_0, login, session_1, store_1, create_1, lookup_1, store_2, store_1-IsValid, store_2-IsValid,
}

abbrev nothing : UpdateSessionInput
nothing = record {
  user_id = none;
  token = none;
  expires_at = none;
  last_activity = none;
  ip_address = none;
  user_agent = none;
}

abbrev renew : UpdateSessionInput
renew = record nothing { token = some "t3"; user_agent = some "curl" }

abbrev renewed : Session
renewed = record session_1 { token = "t3"; user_agent = some "curl" }

abbrev store_3 : InMemoryStore
store_3 =
    Session.put_session (Session.retoken store_1 "session_00000001" session_1 "t3")
      "session_00000001" renewed

update_1 : Session.update store_1 "session_00000001" renew ≡ (ok renewed, store_3)
unfolding Session.update Session.update_user Session.update_token Session.update_rest reject_if
    find_or when_set lookup insert erase generate_id
update_1 = refl

abbrev all_of_u1 : ListOptions
all_of_u1 = record {
  filters = ("userId", "u1") ∷ [];
  sort = ("createdAt", "asc") ∷ [];
  page = pos 1;
  limit = pos 20;
}

get_by_token-create_example : Session.get_by_token 99 store_1 login.token ≡ (ok session_1, store_1)
get_by_token-create_example =
    get_by_token-create 5 99 store_0 login {a = session_1} {s' = store_1} create_1 (omega arith)

clean_expired-lookup_example :
    lookup "session_00000002" (Session.clean_expired 50 store_2).1.sessions
    ≡ unexpired 50 (lookup "session_00000002" store_2.sessions)
clean_expired-lookup_example = clean_expired-lookup 50 store_2 "session_00000002" store_2-IsValid

-- The second session has expired at 50, the first has not.
stored : length (values store_2.sessions) ≤ 20
unfolding Session.create reject_if contains lookup insert generate_id values
stored = omega arith

list-IsShown_example :
    (shown : List Session) × ((Session.list 50 store_2 all_of_u1).0 ≡ done shown)
    × (Member session_1 shown ↔ IsShown 50 store_2 all_of_u1 session_1)
list-IsShown_example =
    list-IsShown 50 store_2 all_of_u1 20 session_1 store_2-IsValid refl refl (omega arith) stored

update-assigned_example :
    (a : Session) × (lookup "session_00000001" store_1.sessions ≡ some a)
    × (renewed ≡ assigned renew a)
    × Assigns store_1 "session_00000001" renewed store_3
update-assigned_example =
    update-assigned store_1 "session_00000001" renew {b = renewed} {s' = store_3} update_1

update-moves_token_example :
    (lookup renewed.token store_3.session_tokens ≡ some "session_00000001")
    × (session_1.token ≢ renewed.token → lookup session_1.token store_3.session_tokens ≡ none)
update-moves_token_example =
    update-moves_token store_1 "session_00000001" renew session_1 renewed {s' = store_3}
      store_1-IsValid lookup_1 update_1
