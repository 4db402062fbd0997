-- ===== src/Session/Tokens.antt =====
-- What a session token is good for, after each operation of
-- libraries/dbal/production/src/entities/session that writes it.
use dbal.Prelude.{suc, ◌<◌, String, ◌≡◌, subst, false, some, arith, is_empty, eq_refl}
use dbal.Map.{lookup, insert, lookup-erase, lookup-insert_self}
use dbal.Result.{Result, ok, err, not_found, reject_if, find_or, reject_if-ok}
use dbal.Types.{Timestamp, Session, CreateSessionInput}
use dbal.Store.{InMemoryStore}
use dbal.Store.Ids.{generate_id, generate_id-not-empty}
use dbal.Session.{create, remove, get, get_by_token, new_session, with_sessions, count_session}

abbrev created : Timestamp → InMemoryStore → CreateSessionInput → Result Session × InMemoryStore
created now s input = (
  ok (new_session now s input),
  with_sessions (count_session s)
      (insert (new_session now s input).id (new_session now s input) s.sessions)
      (insert input.token (new_session now s input).id s.session_tokens),
)

-- A creation that succeeds adds the new session under a free token, and nothing else.
create-ok :
    (now : Timestamp) (s : InMemoryStore) (input : CreateSessionInput) {a : Session}
    {s' : InMemoryStore}
    → create now s input ≡ (ok a, s')
    → (is_empty input.token ≡ false) × (created now s input ≡ (ok a, s'))
unfolding create
create-ok now s input h =
    let (p, h₁) = reject_if-ok _ _ _ _ h in
    let (q, h₂) = reject_if-ok _ _ _ _ h₁ in
    let (r, h₃) = reject_if-ok _ _ _ _ h₂ in let (t, h₄) = reject_if-ok _ _ _ _ h₃ in (q, h₄)

find_by_token :
    (now : Timestamp) (s : InMemoryStore) (token id : String) (a : Session)
    → is_empty token ≡ false
    → is_empty id ≡ false
    → lookup token s.session_tokens ≡ some id
    → lookup id s.sessions ≡ some a
    → now < a.expires_at
    → get_by_token now s token ≡ (ok a, s)
unfolding get_by_token get reject_if find_or
find_by_token now s token id a p q e f live = rw (p, e, q, f) (ground arith)

-- A session that was created is found by its token as long as it has not expired, and is returned
-- as it was created.
pub get_by_token-create :
    (now later : Timestamp) (s : InMemoryStore) (input : CreateSessionInput) {a : Session}
    {s' : InMemoryStore}
    → create now s input ≡ (ok a, s')
    → later < input.expires_at
    → get_by_token later s' input.token ≡ (ok a, s')
get_by_token-create now later s input h live =
    let (p, e) = create-ok now s input h in
    let id = generate_id "session" (suc s.session_counter) in
    subst (λ (r : Result Session × InMemoryStore). get_by_token later r.1 input.token ≡ r) e
      (find_by_token later _ input.token id (new_session now s input) p
        (generate_id-not-empty "session" (suc s.session_counter) (λ q. cc))
        (lookup-insert_self input.token id s.session_tokens)
        (lookup-insert_self id (new_session now s input) s.sessions) live)

-- After the removal of a stored session, whose id and token are not empty, the token is not found.
pub get_by_token-remove :
    (now : Timestamp) (s : InMemoryStore) (id : String) (a : Session)
    → is_empty id ≡ false
    → is_empty a.token ≡ false
    → lookup id s.sessions ≡ some a
    → (get_by_token now (remove s id).1 a.token).0 ≡ err (not_found "Session not found for token")
unfolding get_by_token remove reject_if find_or
get_by_token-remove now s id a p q e =
    rw (p, e, q) (ground (arith, lookup-erase a.token a.token s.session_tokens, eq_refl a.token))
