-- ===== src/Session.antt =====
-- libraries/dbal/production/src/entities/session: sessions of the in-memory store, with a unique
-- index by token. `now` is the reading of the system clock.
pub mod Invariant
pub mod Frame
pub mod Tokens
pub mod Expiry
pub mod Updates
use dbal.Prelude.{
  ℕ, suc, String, ◌<>◌, Bool, true, false, not, ◌&&◌, Option, none, some, List, [], ◌∷◌, str_eq,
  is_empty, has_value, value_or, or_else, leb, ltb, length, if◌then◌else◌,
}
use dbal.Map.{Map, lookup, insert, erase, contains, values, taken}
use dbal.Result.{
  Result, ok, err, validation_error, not_found, conflict, reject_if, find_or, when_set,
}
use dbal.Types.{Timestamp, Session, CreateSessionInput, UpdateSessionInput, ListOptions}
use dbal.Store.{InMemoryStore}
use dbal.Store.Ids.{generate_id}
use dbal.Listing.{sort_by, paginate, filter_list, matches_filter, Outcome}

abbrev pub with_sessions : InMemoryStore → Map Session → Map String → InMemoryStore
with_sessions s sessions tokens = record s {
  contents = record s.contents { sessions = sessions; session_tokens = tokens };
}

abbrev pub count_session : InMemoryStore → InMemoryStore
count_session s = record s {
  contents = record s.contents { session_counter = suc s.session_counter };
}

abbrev pub new_session : Timestamp → InMemoryStore → CreateSessionInput → Session
new_session now s input = record {
  id = generate_id "session" (suc s.session_counter);
  user_id = input.user_id;
  token = input.token;
  expires_at = input.expires_at;
  created_at = value_or input.created_at now;
  last_activity =
      if has_value input.last_activity
      then input.last_activity
      else some (value_or input.created_at now);
  ip_address = input.ip_address;
  user_agent = input.user_agent;
}

unfoldable pub create :
    Timestamp → InMemoryStore → CreateSessionInput → Result Session × InMemoryStore
create now store input =
    reject_if (is_empty input.user_id) (validation_error "userId is required") store (
      reject_if (is_empty input.token) (validation_error "token is required") store (
        reject_if (not (contains input.user_id store.users))
          (validation_error ("User not found: " <> input.user_id)) store
          (reject_if (contains input.token store.session_tokens)
            (conflict ("Session token already exists: " <> input.token)) store
            (let session = new_session now store input in
              (
                ok session,
                with_sessions (count_session store) (insert session.id session store.sessions)
                    (insert session.token session.id store.session_tokens),
              )))))

-- `session_tokens.erase(it->second.token); sessions.erase(it)`.
abbrev pub drop_session : InMemoryStore → String → Session → InMemoryStore
drop_session store id session =
    with_sessions store (erase id store.sessions) (erase session.token store.session_tokens)

unfoldable pub remove : InMemoryStore → String → Result Bool × InMemoryStore
remove store id = reject_if (is_empty id) (validation_error "Session ID cannot be empty") store (
    find_or (lookup id store.sessions) (not_found ("Session not found: " <> id)) store
      λ session. (ok true, drop_session store id session))

unfoldable pub get : Timestamp → InMemoryStore → String → Result Session × InMemoryStore
get now store id = reject_if (is_empty id) (validation_error "Session ID cannot be empty") store (
    find_or (lookup id store.sessions) (not_found ("Session not found: " <> id)) store λ session.
      reject_if (leb session.expires_at now) (not_found ("Session expired: " <> id))
        (drop_session store id session) (ok session, store))

unfoldable pub get_by_token : Timestamp → InMemoryStore → String → Result Session × InMemoryStore
get_by_token now store token =
    reject_if (is_empty token) (validation_error "Token cannot be empty") store (
      find_or (lookup token store.session_tokens) (not_found "Session not found for token") store
        λ id. get now store id)

-- The reference `Session& session` of `update`: what is assigned to it is in the map at once.
abbrev pub put_session : InMemoryStore → String → Session → InMemoryStore
put_session store id session =
    with_sessions store (insert id session store.sessions) store.session_tokens

-- The last four fields, which cannot fail.
abbrev pub set_rest : UpdateSessionInput → Session → Session
set_rest input session = record session {
  expires_at = value_or input.expires_at session.expires_at;
  last_activity = or_else input.last_activity session.last_activity;
  ip_address = or_else input.ip_address session.ip_address;
  user_agent = or_else input.user_agent session.user_agent;
}

unfoldable pub update_rest :
    InMemoryStore → String → Session → UpdateSessionInput → Result Session × InMemoryStore
update_rest store id session input =
    let session' = set_rest input session in (ok session', put_session store id session')

abbrev pub retoken : InMemoryStore → String → Session → String → InMemoryStore
retoken store id session token =
    with_sessions store (insert id (record session { token = token }) store.sessions)
      (insert token id (erase session.token store.session_tokens))

unfoldable pub update_token :
    InMemoryStore → String → Session → UpdateSessionInput → Result Session × InMemoryStore
update_token store id session input =
    when_set input.token (update_rest store id session input) λ token.
      reject_if (is_empty token) (validation_error "token is required") store (
        reject_if (taken (lookup token store.session_tokens) id)
          (conflict ("Session token already exists: " <> token)) store
          (update_rest (retoken store id session token) id (record session { token = token })
            input))

unfoldable pub update_user :
    InMemoryStore → String → Session → UpdateSessionInput → Result Session × InMemoryStore
update_user store id session input =
    when_set input.user_id (update_token store id session input) λ user.
      reject_if (is_empty user) (validation_error "userId is required") store (
        reject_if (not (contains user store.users)) (validation_error ("User not found: " <> user))
          store
          (let session' : Session = record session { user_id = user } in
            update_token (put_session store id session') id session' input))

unfoldable pub update : InMemoryStore → String → UpdateSessionInput → Result Session × InMemoryStore
update store id input =
    reject_if (is_empty id) (validation_error "Session ID cannot be empty") store (
      find_or (lookup id store.sessions) (not_found ("Session not found: " <> id)) store
        λ session. update_user store id session input)

-- The ids of the sessions that have expired, in the order of the map.
unfoldable pub expired_ids : Timestamp → Map Session → List String
expired_ids now [] = []
expired_ids now ((id, session) ∷ m) =
    let rest = expired_ids now m in if leb session.expires_at now then id ∷ rest else rest

unfoldable pub erase_found : InMemoryStore → String → InMemoryStore
erase_found store id = elim (lookup id store.sessions) [
  | none ↦ store
  | some session ↦ drop_session store id session
]

unfoldable pub erase_all : InMemoryStore → List String → InMemoryStore
erase_all store [] = store
erase_all store (id ∷ ids) = erase_all (erase_found store id) ids

unfoldable pub clean_expired : Timestamp → InMemoryStore → Result ℕ × InMemoryStore
clean_expired now store =
    let ids = expired_ids now store.sessions in (ok (length ids), erase_all store ids)

unfoldable pub session_matches : ListOptions → Session → Bool
session_matches options session =
    matches_filter options "userId" session.user_id && matches_filter options "token" session.token

unfoldable pub sort_sessions : ListOptions → List Session → List Session
unfolding contains
sort_sessions options sessions =
    if contains "createdAt" options.sort
    then sort_by (λ a b. ltb a.created_at b.created_at) sessions
    else if contains "expiresAt" options.sort
    then sort_by (λ a b. ltb a.expires_at b.expires_at) sessions
    else sessions

-- The result of `cleanExpired` is not looked at; `list` returns no error.
unfoldable pub list :
    Timestamp → InMemoryStore → ListOptions → Outcome (List Session) × InMemoryStore
list now store options =
    let store' = (clean_expired now store).1 in
    (
      paginate options.page options.limit
          (sort_sessions options (filter_list (session_matches options) (values store'.sessions))),
      store',
    )
