-- ===== src/Graph.antt =====
-- libraries/dbal/production/src/workflow/wf_graph_order.cpp: the order in which the nodes of a
-- workflow run, and the workflow that serves a form. An `int` of `indegree` is an integer; it counts
-- edges.
pub mod Distinct
pub mod Pending
pub mod Relax
pub mod Drain
pub mod Order
pub mod Forms
use dbal.Prelude.{
  ℕ, zero, suc, ◌+◌, String, Bool, true, false, Option, none, some, List, [], ◌∷◌, ◌++◌, ◌&&◌, ◌==◌,
  value_or, length, ◌≡◌, refl, if◌then◌else◌,
}
use dbal.Prelude.Int.{ℤ, pos, negsuc, ◌+ℤ◌, ◌-ℤ◌}
use dbal.Prelude.Texts.{holds}
use dbal.Map.{Map, lookup, insert}

abbrev pub Edge : Type 0
Edge = String × String

-- What `operator[]` reads: the entry, or a new one.
unfoldable pub successors : Map (List String) → String → List String
unfolding lookup
successors out key = value_or (lookup key out) []

unfoldable pub degree : Map ℤ → String → ℤ
unfolding lookup
degree indegree key = value_or (lookup key indegree) (pos 0)

abbrev pub is_zero : ℤ → Bool
is_zero (pos n) = n == 0
is_zero (negsuc n) = false

unfoldable pub no_degrees : List String → Map ℤ → Map ℤ
unfolding insert
no_degrees [] indegree = indegree
no_degrees (key ∷ keys) indegree = no_degrees keys (insert key (pos 0) indegree)

abbrev pub is_known : List String → Edge → Bool
is_known known (from, to) = holds from known && holds to known

-- The two maps, `out` and `indegree`.
abbrev pub Links : Type 0
Links = Map (List String) × Map ℤ

unfoldable pub link : Edge → Links → Links
unfolding successors degree insert
link (from, to) (out, indegree) = (
  insert from (successors out from ++ to ∷ []) out,
  insert to (degree indegree to +ℤ pos 1) indegree,
)

-- The loop over the edges.
unfoldable pub add_edges : List String → List Edge → Links → Links
unfolding link holds
add_edges known [] links = links
add_edges known (edge ∷ edges) links =
    add_edges known edges (if is_known known edge then link edge links else links)

unfoldable pub sources : List String → Map ℤ → List String
unfolding degree
sources [] indegree = []
sources (key ∷ keys) indegree =
    let rest = sources keys indegree in if is_zero (degree indegree key) then key ∷ rest else rest

-- The loop over the successors of a node, which may become ready.
unfoldable pub relax : List String → List String → Map ℤ → List String × Map ℤ
unfolding degree insert
relax [] ready indegree = (ready, indegree)
relax (next ∷ nexts) ready indegree =
    let left = degree indegree next -ℤ pos 1 in
    relax nexts (if is_zero left then ready ++ next ∷ [] else ready) (insert next left indegree)

-- The loop over the queue, on fuel; what it returns are the nodes behind those in `ordered`.
unfoldable pub drain : ℕ → Map (List String) → List String → Map ℤ → List String
unfolding successors relax
drain zero out ready indegree = []
drain (suc fuel) out [] indegree = []
drain (suc fuel) out (key ∷ ready) indegree =
    let step = relax (successors out key) ready indegree in key ∷ drain fuel out step.0 step.1

abbrev pub ordered_from : List String → Links → List String
ordered_from node_keys (out, indegree) =
    drain (length node_keys + length node_keys) out (sources node_keys indegree) indegree

abbrev pub or_given : List String → List String → List String
or_given node_keys ordered = if length ordered == length node_keys then ordered else node_keys

unfoldable pub topological_order : List String → List Edge → List String
unfolding no_degrees add_edges sources drain
topological_order node_keys edges =
    or_given node_keys
      (ordered_from node_keys (add_edges node_keys edges ([], no_degrees node_keys [])))
