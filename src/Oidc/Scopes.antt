-- ===== src/Oidc/Scopes.antt =====
-- libraries/dbal/production/src/oidc: scopes, which are words with spaces between them
-- (scopeContains of oidc_service.cpp, isScopeAllowed of clients/oauth_client_config.cpp).
use Prim.Native.Char.{Char, code}
use dbal.Prelude.{
  String, ◌≡◌, Bool, true, List, [], ◌∷◌, ◌==◌, ◌&&◌, is_empty, if◌then◌else◌, Member, inl, inr,
  Bool-cases, arith,
}
use dbal.Prelude.Texts.{holds, holds-Member}

-- A character in front of the first word.
abbrev pub cons_first : Char → List String → List String
cons_first c [] = String.◌∷◌ c "" ∷ []
cons_first c (w ∷ ws) = String.◌∷◌ c w ∷ ws

-- The parts between the spaces, the empty ones included: what the loops over `start` and `sp` cut
-- out.
unfoldable pub segments : String → List String
segments String.[] = "" ∷ []
segments (String.◌∷◌ c s) =
    let rest = segments s in if code c == 32 then "" ∷ rest else cons_first c rest

unfoldable pub scope_contains : String → String → Bool
unfolding segments holds
scope_contains scope token = holds token (segments scope)

abbrev pub drop_empty : List String → List String
drop_empty [] = []
drop_empty (w ∷ ws) = if is_empty w then drop_empty ws else w ∷ drop_empty ws

unfoldable pub scope_tokens : String → List String
unfolding segments
scope_tokens s = drop_empty (segments s)

unfoldable pub all_held : List String → List String → Bool
unfolding holds
all_held allowed [] = true
all_held allowed (r ∷ rs) = holds r allowed && all_held allowed rs

pub all_held-Member :
    (allowed rs : List String) (r : String)
    → all_held allowed rs ≡ true
    → Member r rs
    → Member r allowed
unfolding all_held
all_held-Member allowed [] r h m = absurd m
all_held-Member allowed (x ∷ rs) r h m = elim (Bool-cases (holds x allowed)) [
  | inr e ↦ absurd (ground arith)
  | inl e ↦ elim m [
    | inl same ↦ holds-Member r allowed (rw same e)
    | inr later ↦ all_held-Member allowed rs r (rw e at h) later
  ]
]
