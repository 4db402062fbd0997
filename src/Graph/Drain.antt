-- ===== src/Graph/Drain.antt =====
-- libraries/dbal/production/src/workflow/wf_graph_order.cpp: the loop over the queue, to its end.
use Prim.{Unit, tt}
use dbal.Prelude.{
  ℕ, zero, suc, ◌+◌, ◌≤◌, ◌≡◌, refl, sym, ◌∙◌, subst, String, Bool, true, false, ◌||◌, List, [],
  ◌∷◌, ◌++◌, eq_iff, eq_refl, length, arith, Member,
}
use dbal.Prelude.Int.{ℤ}
use dbal.Prelude.Texts.{holds}
use dbal.Map.{Map}
use dbal.Graph.{Edge, is_known, successors, relax, drain}
use dbal.Graph.Distinct.{IsDistinct, IsDistinct-length, holds-append}
use dbal.Graph.Pending.{
  pending, targets, occurrences, pending-append_one, pending-zero, append_assoc, append_nil,
}
use dbal.Graph.Relax.{IsState, IsState-agree, relax-IsState}

module _ (keys : List String) (edges : List Edge) where
  -- In the order that goes on behind `seen`, each node stands behind the sources of its known edges.
  abbrev pub IsTopological : List String → List String → Type 0
  IsTopological seen [] = Unit
  IsTopological seen (v ∷ rest) =
      ((u : String) → Member (u, v) edges → is_known keys (u, v) ≡ true → holds u seen ≡ true)
      × IsTopological (seen ++ v ∷ []) rest

  -- The queue after the nodes in `seen` were ordered.
  abbrev pub IsQueue : List String → List String → Map ℤ → Type 0
  IsQueue seen ready indegree = IsState keys (seen ++ ready) (pending keys edges seen) indegree

  -- Where nothing is ready, the nodes that are reached are those that were ordered.
  abbrev pub IsDone : List String → Map ℤ → Type 0
  IsDone ordered indegree = IsState keys ordered (pending keys edges ordered) indegree

  targets-known :
      (es : List Edge) (key v : String) → holds v (targets keys es key) ≡ true → holds v keys ≡ true
  unfolding targets holds
  targets-known [] key v h = absurd (cc h)
  targets-known ((from, to) ∷ es) key v h = ground (arith, targets-known es key v, eq_iff to v)

  -- What stands in front of a key is not the key.
  front :
      (seen ready : List String) (key : String)
      → IsDistinct (seen ++ key ∷ ready)
      → holds key seen ≡ false
  unfolding holds
  front [] ready key d = refl
  front (x ∷ seen) ready key d = ground (
    arith,
    front seen ready key d.1,
    holds-append x seen (key ∷ ready),
    eq_iff x key,
    eq_refl key,
  )

  first_of : (key : String) (b : Bool) (ready : List String) → (b || holds key (key ∷ ready)) ≡ true
  unfolding holds
  first_of key b ready = rw (eq_refl key) (ground arith)

  length-append : (xs ys : List String) → length (xs ++ ys) ≡ length xs + length ys
  length-append [] ys = omega arith
  length-append (x ∷ xs) ys = omega (arith, length-append xs ys)

  module _ (out : Map (List String))
      (linked : (key : String) → successors out key ≡ targets keys edges key) where
    -- One round of the loop.
    round-IsQueue :
        (seen ready : List String) (key : String) (indegree : Map ℤ)
        → IsQueue seen (key ∷ ready) indegree
        → IsQueue
            (seen ++ key ∷ [])
            (relax (successors out key) ready indegree).0
            (relax (successors out key) ready indegree).1
    round-IsQueue seen ready key indegree st = rw (linked key) (
        relax-IsState keys (seen ++ key ∷ []) (targets keys edges key)
          (pending keys edges (seen ++ key ∷ [])) ready indegree
          (λ v h. targets-known edges key v h)
          (subst
            (λ (l : List String).
              IsState keys l
                (λ v.
                  pending keys edges (seen ++ key ∷ []) v + occurrences v (targets keys edges key))
                indegree)
            (sym (append_assoc seen (key ∷ []) ready))
            (IsState-agree keys (seen ++ key ∷ ready) (pending keys edges seen) _ indegree
              (λ v. pending-append_one keys edges seen key v (front seen ready key st.distinct))
              st)))

    nothing_ready :
        (seen : List String) (indegree : Map ℤ)
        → IsQueue seen [] indegree
        → IsDone (seen ++ []) indegree
    nothing_ready seen indegree st =
        subst (λ (l : List String). IsState keys (seen ++ []) (pending keys edges l) indegree)
          (sym (append_nil seen)) st

    -- With fuel for the keys that are not ordered yet, the loop ends with nothing ready, and each
    -- node stands behind the sources of its edges.
    pub drain-IsDone :
        (fuel : ℕ) (seen ready : List String) (indegree : Map ℤ)
        → length keys ≤ fuel + length seen
        → IsQueue seen ready indegree
        → (end : Map ℤ) × IsDone (seen ++ drain fuel out ready indegree) end
          × IsTopological seen (drain fuel out ready indegree)
    unfolding drain
    drain-IsDone zero seen [] indegree enough st = (indegree, nothing_ready seen indegree st, tt)
    drain-IsDone zero seen (key ∷ ready) indegree enough st =
        let few = IsDistinct-length (seen ++ key ∷ ready) keys st.distinct st.inside in
        let count = length-append seen (key ∷ ready) in absurd (omega arith)
    drain-IsDone (suc fuel) seen [] indegree enough st =
        (indegree, nothing_ready seen indegree st, tt)
    drain-IsDone (suc fuel) seen (key ∷ ready) indegree enough st =
        let count = length-append seen (key ∷ []) in
        let next = relax (successors out key) ready indegree in
        let (end, done, order) =
          drain-IsDone fuel (seen ++ key ∷ []) next.0 next.1 (omega arith)
            (round-IsQueue seen ready key indegree st) in
        let reached : holds key (seen ++ key ∷ ready) ≡ true =
          holds-append key seen (key ∷ ready) ∙ first_of key (holds key seen) ready in
        (
          end,
          subst (λ (l : List String). IsDone l end)
              (append_assoc seen (key ∷ []) (drain fuel out next.0 next.1)) done,
          ((λ u m k. pending-zero keys edges seen u key (st.free key reached) m k), order),
        )
