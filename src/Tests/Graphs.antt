-- ===== src/Tests/Graphs.antt =====
-- libraries/dbal/production/src/workflow/wf_graph_order.cpp, src/security/jwt/base64url.hpp: the
-- theorems on a graph, rows and bytes.
use Prim.{tt}
use dbal.Prelude.{
  ℕ, ◌<◌, ◌≡◌, refl, sym, subst, String, Bool, true, false, Option, none, some, List, [], ◌∷◌,
  str_eq, if◌then◌else◌, arith, inl, inr,
}
use dbal.Prelude.Texts.{holds}
use dbal.Prelude.Int.{◌+ℤ◌, ◌-ℤ◌}
use dbal.Map.{insert, lookup}
use dbal.Graph.{
  no_degrees, add_edges, link, sources, drain, relax, successors, degree, Edge, topological_order,
}
use dbal.Graph.Drain.{IsTopological}
use dbal.Graph.Order.{
  IsPermutation, topological_order-IsPermutation, topological_order-IsTopological,
}
use dbal.Bql.Lexer.{Text}
use dbal.Base64url.{base64url_encode, base64url_decode}
use dbal.Base64url.Roundtrip.{base64url_decode-encode}

abbrev keys : List String
keys = "d" ∷ "b" ∷ "a" ∷ "c" ∷ []

abbrev cycle : List Edge
cycle = ("a", "b") ∷ ("b", "a") ∷ ("c", "d") ∷ []

abbrev diamond : List Edge
diamond = ("a", "b") ∷ ("a", "c") ∷ ("b", "d") ∷ ("c", "d") ∷ []

topological_order-IsPermutation_example : IsPermutation keys (topological_order keys cycle)
unfolding holds
topological_order-IsPermutation_example =
    topological_order-IsPermutation keys cycle (refl, (refl, (refl, (refl, tt))))

abbrev rank : String → ℕ
rank key = if str_eq key "a" then 0 else if str_eq key "d" then 2 else 1

grows : (u v a b : String) → ◌≡◌ {A = Edge} (u, v) (a, b) → rank a < rank b → rank u < rank v
grows u v a b e h = subst (λ (x : Edge). rank x.0 < rank x.1) (sym e) h

topological_order-IsTopological_example :
    IsPermutation keys (topological_order keys diamond)
    × IsTopological keys diamond [] (topological_order keys diamond)
unfolding holds
topological_order-IsTopological_example =
    topological_order-IsTopological keys diamond (refl, (refl, (refl, (refl, tt)))) rank
      (λ u v m k. elim m [
        | inl e ↦ grows u v "a" "b" e (omega arith)
        | inr (inl e) ↦ grows u v "a" "c" e (omega arith)
        | inr (inr (inl e)) ↦ grows u v "b" "d" e (omega arith)
        | inr (inr (inr (inl e))) ↦ grows u v "c" "d" e (omega arith)
        | inr (inr (inr (inr n))) ↦ absurd n
      ])

-- A row: whether it is published, and its form.
abbrev Row : Type 0
Row = Option Bool × Option String

abbrev rows : List Row
rows = (some false, some "contact") ∷ (none, none) ∷ (some true, some "contact") ∷ []

abbrev bytes : Text
bytes = 251 ∷ 255 ∷ 190 ∷ 7 ∷ []

base64url_decode-encode_example : base64url_decode (base64url_encode bytes) ≡ bytes
base64url_decode-encode_example =
    base64url_decode-encode bytes (omega arith, (omega arith, (omega arith, (omega arith, tt))))

diamond_order :
    topological_order
      ("d" ∷ "b" ∷ "a" ∷ "c" ∷ [])
      (("a", "b") ∷ ("a", "c") ∷ ("b", "d") ∷ ("c", "d") ∷ ("x", "d") ∷ [])
    ≡ "a" ∷ "b" ∷ "c" ∷ "d" ∷ []
unfolding topological_order no_degrees add_edges link sources drain relax successors degree insert
    lookup holds ◌+ℤ◌ ◌-ℤ◌
diamond_order = refl
