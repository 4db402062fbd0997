-- ===== src/Graph/Order.antt =====
-- libraries/dbal/production/src/workflow/wf_graph_order.cpp: the order of the nodes of a workflow.
use dbal.Prelude.{
  ℕ, zero, suc, ◌+◌, ◌<◌, ◌≡◌, refl, sym, ap, ◌∙◌, subst, String, true, false, List, [], ◌∷◌,
  str_eq, eq_iff, length, arith, Bool-cases, inl, inr, Member, ◌==◌, ==_iff,
}
use dbal.Prelude.Int.{ℤ, pos}
use dbal.Prelude.Texts.{holds}
use dbal.Map.{Map, lookup}
use dbal.Graph.{
  Edge, Links, is_known, is_zero, successors, degree, no_degrees, add_edges, sources, or_given,
  ordered_from, topological_order,
}
use dbal.Graph.Distinct.{IsDistinct, IsDistinct-length, IsDistinct-all}
use dbal.Graph.Pending.{
  pending, pending-none, targets, degree-no_degrees, degree-add_edges, successors-add_edges,
}
use dbal.Graph.Drain.{IsTopological, IsQueue, IsDone, drain-IsDone}

-- The same keys, each once.
pub record IsPermutation (keys order : List String) : Type 0 where
  pub each_once : IsDistinct order
  pub holds_all : (v : String) → holds v keys ≡ true → holds v order ≡ true
  pub holds_only : (v : String) → holds v order ≡ true → holds v keys ≡ true

-- The ranks grow along the known edges, so that they form no cycle.
abbrev pub AreRanks : List String → List Edge → (String → ℕ) → Type 0
AreRanks keys edges rank =
    (u v : String) → Member (u, v) edges → is_known keys (u, v) ≡ true → rank u < rank v

module _ (indegree : Map ℤ) where
  sources-free :
      (keys : List String) (v : String)
      → holds v (sources keys indegree) ≡ true
      → (holds v keys ≡ true) × (is_zero (degree indegree v) ≡ true)
  unfolding sources holds
  sources-free [] v h = absurd (cc h)
  sources-free (key ∷ keys) v h = elim (Bool-cases (is_zero (degree indegree key))) [
    | inr e ↦ let (a, b) = sources-free keys v (rw e at h) in (ground arith, b)
    | inl e ↦
        let h' = rw e at h in
        elim (Bool-cases (str_eq key v)) [
          | inl same ↦ (
            rw same refl,
            subst (λ (k : String). is_zero (degree indegree k) ≡ true) ((eq_iff key v).0 same) e,
          )
          | inr other ↦ let (a, b) = sources-free keys v (rw other at h') in (ground arith, b)
        ]
  ]

  sources_complete :
      (keys : List String) (v : String)
      → holds v keys ≡ true
      → is_zero (degree indegree v) ≡ true
      → holds v (sources keys indegree) ≡ true
  unfolding sources holds
  sources_complete [] v h z = absurd (cc h)
  sources_complete (key ∷ keys) v h z = elim (Bool-cases (str_eq key v)) [
    | inl same ↦
        let at_key : is_zero (degree indegree key) ≡ true =
          subst (λ (k : String). is_zero (degree indegree k) ≡ true) (sym ((eq_iff key v).0 same))
            z in
        rw at_key (rw same refl)
    | inr other ↦
        let later = sources_complete keys v (rw other at h) z in
        elim (Bool-cases (is_zero (degree indegree key))) [
          | inl e ↦ rw e (rw other later)
          | inr e ↦ rw e later
        ]
  ]

  sources-missing :
      (keys : List String) (v : String)
      → holds v keys ≡ false
      → holds v (sources keys indegree) ≡ false
  sources-missing keys v h = elim (Bool-cases (holds v (sources keys indegree))) [
    | inr e ↦ e
    | inl e ↦ absurd (cc ((sources-free keys v e).0, h))
  ]

  sources-IsDistinct : (keys : List String) → IsDistinct keys → IsDistinct (sources keys indegree)
  unfolding sources holds
  sources-IsDistinct [] d = d
  sources-IsDistinct (key ∷ keys) d = elim (Bool-cases (is_zero (degree indegree key))) [
    | inr e ↦ rw e (sources-IsDistinct keys d.1)
    | inl e ↦ rw e (sources-missing keys key d.0, sources-IsDistinct keys d.1)
  ]

module _ (keys : List String) (edges : List Edge) (distinct : IsDistinct keys) where
  built : Links
  built = add_edges keys edges ([], no_degrees keys [])

  built-degree : (v : String) → degree built.1 v ≡ pos (pending keys edges [] v)
  unfolding built degree lookup
  built-degree v =
      degree-add_edges keys edges ([], no_degrees keys []) v 0 (degree-no_degrees keys [] v refl)
      ∙ ap (λ (k : ℕ). pos k) (omega arith)

  built-successors : (key : String) → successors built.0 key ≡ targets keys edges key
  unfolding built successors lookup
  built-successors key = successors-add_edges keys edges ([], no_degrees keys []) key

  zero_degree : (v : String) → is_zero (degree built.1 v) ≡ true → pending keys edges [] v ≡ 0
  zero_degree v h = let h' = rw (built-degree v) at h in (==_iff (pending keys edges [] v) 0).0 h'

  -- The queue of the nodes without edges.
  sources-IsQueue : IsQueue keys edges [] (sources keys built.1) built.1
  sources-IsQueue = record {
    counts = built-degree;
    free = λ v h. zero_degree v (sources-free built.1 keys v h).1;
    complete = λ v h z.
        sources_complete built.1 keys v h
          (rw (built-degree v) ((==_iff (pending keys edges [] v) 0).1 z));
    distinct = sources-IsDistinct built.1 keys distinct;
    inside = λ v h. (sources-free built.1 keys v h).0;
  }

  drained : List String
  drained = ordered_from keys built

  -- The nodes that the loop orders.
  drained-IsDone :
      (end : Map ℤ) × IsDone keys edges drained end × IsTopological keys edges [] drained
  unfolding drained built
  drained-IsDone =
      drain-IsDone keys edges built.0 built-successors (length keys + length keys) []
        (sources keys built.1) built.1 (omega arith) sources-IsQueue

  topological_order-drained : topological_order keys edges ≡ or_given keys drained
  unfolding topological_order drained built
  topological_order-drained = refl

  keys-IsPermutation : IsPermutation keys keys
  keys-IsPermutation = record { each_once = distinct; holds_all = λ v h. h; holds_only = λ v h. h }

  -- Also where edges form a cycle, the order of distinct keys has each of them once.
  pub topological_order-IsPermutation : IsPermutation keys (topological_order keys edges)
  topological_order-IsPermutation =
      let (end, done, order) = drained-IsDone in
      rw topological_order-drained (elim (Bool-cases (length drained == length keys)) [
        | inr e ↦ rw e keys-IsPermutation
        | inl e ↦
            let same = (==_iff (length drained) (length keys)).0 e in
            rw e (record {
              each_once = done.distinct;
              holds_all =
                  λ v h. IsDistinct-all drained keys done.distinct done.inside (omega arith) v h;
              holds_only = done.inside;
            })
      ])

  -- With ranks, a key is ordered as soon as those of lower ranks are.
  ranked :
      (rank : String → ℕ) (ranks : AreRanks keys edges rank) (n : ℕ) (v : String)
      → rank v < n
      → holds v keys ≡ true
      → holds v drained ≡ true
  ranked rank ranks zero v below h = absurd (omega arith)
  ranked rank ranks (suc n) v below h =
      let (end, done, order) = drained-IsDone in
      done.complete v h (
        pending-none keys edges drained v (λ u m k.
          let lower = ranks u v m k in ranked rank ranks n u (omega arith) (ground arith)))

  -- Where the known edges form no cycle, so that there are ranks that grow along them, the order of
  -- distinct keys has each of them once, and each behind the sources of its known edges.
  pub topological_order-IsTopological :
      (rank : String → ℕ)
      → AreRanks keys edges rank
      → IsPermutation keys (topological_order keys edges)
        × IsTopological keys edges [] (topological_order keys edges)
  topological_order-IsTopological rank ranks =
      let (end, done, order) = drained-IsDone in
      let all = λ (v : String) (h : holds v keys ≡ true).
        ranked rank ranks (suc (rank v)) v (omega arith) h in
      let long = IsDistinct-length keys drained distinct all in
      let short = IsDistinct-length drained keys done.distinct done.inside in
      let e : (length drained == length keys) ≡ true =
        (==_iff (length drained) (length keys)).1 (omega arith) in
      (topological_order-IsPermutation, rw topological_order-drained (rw e order))
