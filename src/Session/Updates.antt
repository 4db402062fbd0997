-- ===== src/Session/Updates.antt =====
-- `update` of libraries/dbal/production/src/entities/session/crud/update_session.hpp:
-- the assignments, the index, and the store after a failure.
use dbal.Prelude.{
  String, ◌≡◌, ◌≢◌, refl, sym, subst, ◌∙◌, none, some, arith, Option-cases, Bool-cases, inl, inr,
  str_eq, eq_refl, value_or, or_else, if◌then◌else◌,
}
use dbal.Map.{lookup, lookup-insert}
use dbal.Result.{Result, ok, reject_if-ok, find_or-ok, when_set-ok}
use dbal.Types.{Session, UpdateSessionInput}
use dbal.Store.{InMemoryStore}
use dbal.Session.{update, update_user, update_token, update_rest, set_rest}
use dbal.Session.Invariant.{IsValid, update-IsValid}

-- The session with each field that the input gives.
abbrev pub assigned : UpdateSessionInput → Session → Session
assigned input a = record a {
  user_id = value_or input.user_id a.user_id;
  token = value_or input.token a.token;
  expires_at = value_or input.expires_at a.expires_at;
  last_activity = or_else input.last_activity a.last_activity;
  ip_address = or_else input.ip_address a.ip_address;
  user_agent = or_else input.user_agent a.user_agent;
}

-- `s'` has `b` under `id` and is otherwise as `s`, as far as the sessions go.
abbrev pub Assigns : InMemoryStore → String → Session → InMemoryStore → Type 0
Assigns s id b s' =
    (j : String) → lookup j s'.sessions ≡ (if str_eq id j then some b else lookup j s.sessions)

update_rest-ok :
    (s : InMemoryStore) (id : String) (a : Session) (input : UpdateSessionInput) {b : Session}
    {s' : InMemoryStore}
    → update_rest s id a input ≡ (ok b, s')
    → (b ≡ set_rest input a) × Assigns s id b s'
unfolding update_rest
update_rest-ok s id a input {b} {s'} h =
    let e : set_rest input a ≡ b = cc in
    (
      sym e,
      λ j.
          subst
            (λ (r : Result Session × InMemoryStore).
              lookup j r.1.sessions ≡ (if str_eq id j then some b else lookup j s.sessions))
            h (lookup-insert id j (set_rest input a) s.sessions ∙ rw e refl),
    )

update_token-ok :
    (s : InMemoryStore) (id : String) (a : Session) (input : UpdateSessionInput) {b : Session}
    {s' : InMemoryStore}
    → update_token s id a input ≡ (ok b, s')
    → (b ≡ set_rest input (record a { token = value_or input.token a.token })) × Assigns s id b s'
unfolding update_token
update_token-ok s id a input {b} {s'} h = elim (when_set-ok _ _ _ h) [
  | inl (e, k) ↦ let r = update_rest-ok s id a input k in rw e r
  | inr (token, e, k) ↦
      let (p, k₁) = reject_if-ok _ _ _ _ k in
      let (q, k₂) = reject_if-ok _ _ _ _ k₁ in
      let r = update_rest-ok _ id _ input k₂ in
      rw e (
        r.0,
        λ j. ground (arith, r.1 j, lookup-insert id j (record a { token = token }) s.sessions),
      )
]

update_user-ok :
    (s : InMemoryStore) (id : String) (a : Session) (input : UpdateSessionInput) {b : Session}
    {s' : InMemoryStore}
    → update_user s id a input ≡ (ok b, s')
    → (b ≡ assigned input a) × Assigns s id b s'
unfolding update_user
update_user-ok s id a input {b} {s'} h = elim (when_set-ok _ _ _ h) [
  | inl (e, k) ↦ let r = update_token-ok s id a input k in rw e r
  | inr (user, e, k) ↦
      let (p, k₁) = reject_if-ok _ _ _ _ k in
      let (q, k₂) = reject_if-ok _ _ _ _ k₁ in
      let r = update_token-ok _ id _ input k₂ in
      rw e (
        r.0,
        λ j. ground (arith, r.1 j, lookup-insert id j (record a { user_id = user }) s.sessions),
      )
]

-- An update that succeeds finds a session under the id, assigns each field that the input gives and
-- no other, returns the session as it is stored now, and changes no other session.
pub update-assigned :
    (s : InMemoryStore) (id : String) (input : UpdateSessionInput) {b : Session}
    {s' : InMemoryStore}
    → update s id input ≡ (ok b, s')
    → (a : Session) × (lookup id s.sessions ≡ some a) × (b ≡ assigned input a) × Assigns s id b s'
unfolding update
update-assigned s id input h =
    let (p, k) = reject_if-ok _ _ _ _ h in
    let (a, e, k₁) = find_or-ok _ _ _ _ k in
    let r = update_user-ok s id a input k₁ in (a, e, r.0, r.1)

-- In a consistent store an update that succeeds makes the token that it returns the one that leads to
-- the session, and if the token is another than before, the old one leads nowhere.
pub update-moves_token :
    (s : InMemoryStore) (id : String) (input : UpdateSessionInput) (a b : Session)
    {s' : InMemoryStore}
    → IsValid s
    → lookup id s.sessions ≡ some a
    → update s id input ≡ (ok b, s')
    → (lookup b.token s'.session_tokens ≡ some id)
      × (a.token ≢ b.token → lookup a.token s'.session_tokens ≡ none)
update-moves_token s id input a b {s'} v old h =
    let (a', e, same, set) = update-assigned s id input h in
    let w : IsValid s' = subst (λ r. IsValid r.1) h (update-IsValid s id input v).left in
    (
      w.index.forward id b (set id ∙ ground (arith, eq_refl id)),
      λ differ. elim (Option-cases (lookup a.token s'.session_tokens)) [
        | inl n ↦ n
        | inr (j, p) ↦
            let (c, q, r) = w.index.backward a.token j p in
            elim (Bool-cases (str_eq id j)) [
              | inl hit ↦
                  let is_b : some b ≡ some c = ground (arith, set j) in
                  absurd (differ (sym r ∙ sym (cc)))
              | inr miss ↦
                  let there : lookup j s.sessions ≡ some c = ground (arith, set j) in
                  absurd
                    (cc (v.index.forward j c there, v.index.forward id a old, eq_refl id, r, miss))
            ]
      ],
    )
