-- ===== src/Oidc/Clients/Loaded.antt =====
-- libraries/dbal/production/src/oidc/clients/oauth_client_config.cpp: what a configuration that was
-- loaded is.
use dbal.Prelude.{
  String, ◌≡◌, ◌≢◌, refl, sym, ◌∙◌, subst, true, false, Option, none, some, List, [], ◌∷◌, str_eq,
  eq_iff, Member, inl, inr, Bool-cases, arith,
}
use dbal.Map.{lookup, insert, lookup-insert}
use dbal.Oidc.Clients.{
  OauthClient, ClientNode, Clients, Loading, throws, loaded, no_strings, any_not_s256, client_of,
  checked_client, load_node, load_clients, load, get_client,
}

-- What the provider relies on: a public client, for which PKCE is mandatory with S256 alone, and
-- which has a redirect URI.
pub record IsAccepted (c : OauthClient) : Type 0 where
  pub is_public : c.token_endpoint_auth_method ≡ "none"
  pub needs_pkce : c.require_pkce ≡ true
  pub some_method : c.pkce_methods ≢ []
  pub only_s256 : (m : String) → Member m c.pkce_methods → m ≡ "S256"
  pub some_redirect : c.redirect_uris ≢ []

any_not_s256-false :
    (ms : List String) (m : String) → any_not_s256 ms ≡ false → Member m ms → m ≡ "S256"
unfolding any_not_s256
any_not_s256-false [] m h n = absurd n
any_not_s256-false (x ∷ ms) m h n = elim (Bool-cases (str_eq x "S256")) [
  | inr e ↦ absurd (ground arith)
  | inl e ↦ elim n [
    | inl same ↦ ground (arith, eq_iff x "S256")
    | inr later ↦ any_not_s256-false ms m (rw e at h) later
  ]
]

no_strings-false : (ss : List String) → no_strings ss ≡ false → ss ≢ []
no_strings-false [] h e = cc h
no_strings-false (s ∷ ss) h e = cc e

checked_client-loaded : (c d : OauthClient) → checked_client c ≡ loaded d → (c ≡ d) × IsAccepted c
unfolding checked_client
checked_client-loaded c d h = elim (Bool-cases (str_eq c.token_endpoint_auth_method "none")) [
  | inr e ↦ absurd (cc (rw e at h))
  | inl e ↦
      let h1 = rw e at h in
      elim (Bool-cases c.require_pkce) [
        | inr e2 ↦ absurd (cc (rw e2 at h1))
        | inl e2 ↦
            let h2 = rw e2 at h1 in
            elim (Bool-cases (no_strings c.pkce_methods)) [
              | inl e3 ↦ absurd (cc (rw e3 at h2))
              | inr e3 ↦
                  let h3 = rw e3 at h2 in
                  elim (Bool-cases (any_not_s256 c.pkce_methods)) [
                    | inl e4 ↦ absurd (cc (rw e4 at h3))
                    | inr e4 ↦
                        let h4 = rw e4 at h3 in
                        elim (Bool-cases (no_strings c.redirect_uris)) [
                          | inl e5 ↦ absurd (cc (rw e5 at h4))
                          | inr e5 ↦ (
                            cc (rw e5 at h4),
                            record {
                              is_public = (eq_iff c.token_endpoint_auth_method "none").0 e;
                              needs_pkce = e2;
                              some_method = no_strings-false c.pkce_methods e3;
                              only_s256 = λ m n. any_not_s256-false c.pkce_methods m e4 n;
                              some_redirect = no_strings-false c.redirect_uris e5;
                            },
                          )
                        ]
                  ]
            ]
      ]
]

-- Each client stands under its own id and is accepted.
abbrev AreAccepted : Clients → Type 0
AreAccepted clients =
    (id : String) (c : OauthClient)
    → get_client clients id ≡ some c
    → (c.client_id ≡ id) × IsAccepted c

load_node-loaded : (node : ClientNode) (c : OauthClient) → load_node node ≡ loaded c → IsAccepted c
unfolding load_node
load_node-loaded node c h = by_id node.client_id h
  where
    by_id :
        (o : Option String)
        → elim o [
          | none ↦ throws "[json.exception.out_of_range.403] key 'client_id' not found"
          | some id ↦ checked_client (client_of id node)
        ]
          ≡ loaded c
        → IsAccepted c
    by_id none e = absurd (cc e)
    by_id (some id) e =
        let r = checked_client-loaded (client_of id node) c e in
        subst (λ (k : OauthClient). IsAccepted k) r.0 r.1

insert-AreAccepted :
    (c : OauthClient) (clients : Clients)
    → IsAccepted c
    → AreAccepted clients
    → AreAccepted (insert c.client_id c clients)
unfolding get_client
insert-AreAccepted c clients hc hs id d h =
    let h' = sym (lookup-insert c.client_id id c clients) ∙ h in
    elim (Bool-cases (str_eq c.client_id id)) [
      | inl e ↦
          let same : c ≡ d = cc (rw e at h') in
          subst (λ (k : OauthClient). (k.client_id ≡ id) × IsAccepted k) same
            ((eq_iff c.client_id id).0 e, hc)
      | inr e ↦ hs id d (rw e at h')
    ]

-- The step at one node, with what holds of the rest.
load_rest :
    (node : ClientNode) (nodes : List ClientNode) (config clients : Clients)
    (o : Loading OauthClient)
    → load_node node ≡ o
    → AreAccepted config
    → ((c : OauthClient)
        → AreAccepted (insert c.client_id c config)
        → load_clients nodes (insert c.client_id c config) ≡ loaded clients
        → AreAccepted clients)
    → elim o [
      | throws why ↦ throws why
      | loaded c ↦ load_clients nodes (insert c.client_id c config)
    ]
      ≡ loaded clients
    → AreAccepted clients
load_rest node nodes config clients (throws why) same hc again h = absurd (cc h)
load_rest node nodes config clients (loaded c) same hc again h =
    again c (insert-AreAccepted c config (load_node-loaded node c same) hc) h

load_clients-AreAccepted :
    (nodes : List ClientNode) (config clients : Clients)
    → AreAccepted config
    → load_clients nodes config ≡ loaded clients
    → AreAccepted clients
unfolding load_clients
load_clients-AreAccepted [] config clients hc h =
    let same : config ≡ clients = cc h in subst (λ (k : Clients). AreAccepted k) same hc
load_clients-AreAccepted (node ∷ nodes) config clients hc h =
    load_rest node nodes config clients (load_node node) refl hc
      (λ c ha he. load_clients-AreAccepted nodes (insert c.client_id c config) clients ha he) h

load-AreAccepted :
    (path : String) (nodes : Option (List ClientNode)) (clients : Clients)
    → load path nodes ≡ loaded clients
    → AreAccepted clients
unfolding load get_client lookup
load-AreAccepted path none clients h = absurd (cc h)
load-AreAccepted path (some nodes) clients h =
    load_clients-AreAccepted nodes [] clients (λ id c e. absurd (cc e)) h

-- Each client of a configuration that loads stands under its own id, is public, has PKCE mandatory
-- with S256 as the only method, and has a redirect URI.
pub load-IsAccepted :
    (path : String) (nodes : Option (List ClientNode)) (clients : Clients)
    → load path nodes ≡ loaded clients
    → (id : String) (c : OauthClient) → get_client clients id ≡ some c
    → (c.client_id ≡ id) × IsAccepted c
load-IsAccepted path nodes clients h id c found = load-AreAccepted path nodes clients h id c found
