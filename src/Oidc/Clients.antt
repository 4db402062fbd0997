-- ===== src/Oidc/Clients.antt =====
-- libraries/dbal/production/src/oidc/clients/oauth_client_config.cpp, oauth_client_config.hpp: the
-- clients that are registered. A node is an object of the array "clients", with the fields that it
-- has; the file is read and parsed by a library, and a field of another type is left out.
pub mod Loaded
use dbal.Prelude.{
  ℕ, String, ◌<>◌, Bool, true, false, Option, none, some, List, [], ◌∷◌, str_eq, not, ◌||◌,
  value_or, if◌then◌else◌,
}
use dbal.Map.{Map, lookup, insert}
use dbal.Prelude.Texts.{holds}
use dbal.Oidc.Scopes.{scope_tokens, all_held}

pub record OauthClient : Type 0 where
  pub client_id : String
  pub client_name : String
  pub token_endpoint_auth_method : String
  pub grant_types : List String
  pub response_types : List String
  pub redirect_uris : List String
  pub post_logout_redirect_uris : List String
  pub require_pkce : Bool
  pub pkce_methods : List String
  pub scope : String
  pub access_token_ttl_seconds : ℕ
  pub refresh_token_ttl_seconds : ℕ
  pub id_token_ttl_seconds : ℕ

unfoldable pub is_valid_redirect_uri : OauthClient → String → Bool
unfolding holds
is_valid_redirect_uri c uri = holds uri c.redirect_uris

unfoldable pub is_valid_post_logout_redirect_uri : OauthClient → String → Bool
unfolding holds
is_valid_post_logout_redirect_uri c uri = holds uri c.post_logout_redirect_uris

unfoldable pub is_scope_allowed : OauthClient → String → Bool
unfolding scope_tokens all_held
is_scope_allowed c requested = all_held (scope_tokens c.scope) (scope_tokens requested)

pub record ClientNode : Type 0 where
  pub client_id : Option String
  pub client_name : Option String
  pub token_endpoint_auth_method : Option String
  pub grant_types : Option (List String)
  pub response_types : Option (List String)
  pub redirect_uris : Option (List String)
  pub post_logout_redirect_uris : Option (List String)
  pub require_pkce : Option Bool
  pub pkce_methods : Option (List String)
  pub scope : Option String
  pub access_token_ttl_seconds : Option ℕ
  pub refresh_token_ttl_seconds : Option ℕ
  pub id_token_ttl_seconds : Option ℕ

abbrev pub Clients : Type 0
Clients = Map OauthClient

-- `load` throws, with what the exception says, or returns the clients.
pub data Loading {ℓ} (A : Type ℓ) : Type ℓ where
  throws : String → Loading A
  loaded : A → Loading A

abbrev pub no_strings : List String → Bool
no_strings [] = true
no_strings (s ∷ ss) = false

unfoldable pub any_not_s256 : List String → Bool
any_not_s256 [] = false
any_not_s256 (m ∷ ms) = not (str_eq m "S256") || any_not_s256 ms

-- The client of a node with the id, from the fields and their defaults.
unfoldable pub client_of : String → ClientNode → OauthClient
client_of id node = record {
  client_id = id;
  client_name = value_or node.client_name id;
  token_endpoint_auth_method = value_or node.token_endpoint_auth_method "none";
  grant_types = value_or node.grant_types [];
  response_types = value_or node.response_types [];
  redirect_uris = value_or node.redirect_uris [];
  post_logout_redirect_uris = value_or node.post_logout_redirect_uris [];
  require_pkce = value_or node.require_pkce true;
  pkce_methods = value_or node.pkce_methods [];
  scope = value_or node.scope "openid";
  access_token_ttl_seconds = value_or node.access_token_ttl_seconds 900;
  refresh_token_ttl_seconds = value_or node.refresh_token_ttl_seconds 1209600;
  id_token_ttl_seconds = value_or node.id_token_ttl_seconds 900;
}

abbrev pub rejected : OauthClient → String → Loading OauthClient
rejected c why = throws ("Client '" <> c.client_id <> "': " <> why)

-- The checks of a client, in their order.
unfoldable pub checked_client : OauthClient → Loading OauthClient
unfolding any_not_s256
checked_client c =
    if not (str_eq c.token_endpoint_auth_method "none")
    then rejected c "only token_endpoint_auth_method=none (public clients) is supported in v1"
    else if not c.require_pkce
    then rejected c
        "require_pkce=false is not supported — PKCE is mandatory for every client in this provider"
    else if no_strings c.pkce_methods || any_not_s256 c.pkce_methods
    then rejected c
        "pkce_methods must be exactly [\"S256\"] — 'plain' is never accepted by this provider"
    else if no_strings c.redirect_uris
    then rejected c "redirect_uris must not be empty"
    else loaded c

unfoldable pub load_node : ClientNode → Loading OauthClient
unfolding client_of checked_client
load_node node = elim node.client_id [
  | none ↦ throws "[json.exception.out_of_range.403] key 'client_id' not found"
  | some id ↦ checked_client (client_of id node)
]

unfoldable pub load_clients : List ClientNode → Clients → Loading Clients
unfolding load_node insert
load_clients [] config = loaded config
load_clients (node ∷ nodes) config = elim (load_node node) [
  | throws why ↦ throws why
  | loaded c ↦ load_clients nodes (insert c.client_id c config)
]

-- `none` is a root without an array "clients".
unfoldable pub load : String → Option (List ClientNode) → Loading Clients
unfolding load_clients
load path none = throws ("OIDC clients config missing 'clients' array: " <> path)
load path (some nodes) = load_clients nodes []

unfoldable pub get_client : Clients → String → Option OauthClient
unfolding lookup
get_client clients id = lookup id clients
