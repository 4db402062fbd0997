-- ===== src/Graph/Relax.antt =====
-- libraries/dbal/production/src/workflow/wf_graph_order.cpp: the state of the queue, and what the
-- loop over the successors of a node does to it.
use dbal.Prelude.{
  ℕ, zero, suc, ◌+◌, ◌≡◌, refl, sym, ap, ◌∙◌, subst, String, true, false, List, [], ◌∷◌, ◌++◌,
  str_eq, eq_iff, eq_refl, if◌then◌else◌, arith, Bool-cases, inl, inr,
}
use dbal.Prelude.Int.{ℤ, pos, ◌-ℤ◌, pos-suc-sub-one}
use dbal.Prelude.Texts.{holds}
use dbal.Map.{Map, insert}
use dbal.Graph.{degree, is_zero, relax}
use dbal.Graph.Distinct.{
  IsDistinct, IsDistinct-append_one, holds-append_one, append_one-holds, append_one-holds_self,
}
use dbal.Graph.Pending.{occurrences, degree-insert, append_assoc}

-- `reached` are the nodes that are ordered or ready, and `left` counts the edges into a node that
-- are still to come. A node is reached as soon as there are none.
pub record IsState (keys reached : List String) (left : String → ℕ) (indegree : Map ℤ)
    : Type 0 where
  pub counts : (v : String) → degree indegree v ≡ pos (left v)
  pub free : (v : String) → holds v reached ≡ true → left v ≡ 0
  pub complete : (v : String) → holds v keys ≡ true → left v ≡ 0 → holds v reached ≡ true
  pub distinct : IsDistinct reached
  pub inside : (v : String) → holds v reached ≡ true → holds v keys ≡ true

pub IsState-agree :
    (keys reached : List String) (left left' : String → ℕ) (indegree : Map ℤ)
    → ((v : String) → left v ≡ left' v)
    → IsState keys reached left indegree
    → IsState keys reached left' indegree
IsState-agree keys reached left left' indegree same st = record {
  counts = λ v. st.counts v ∙ ap (λ (k : ℕ). pos k) (same v);
  free = λ v h. sym (same v) ∙ st.free v h;
  complete = λ v h z. st.complete v h (same v ∙ z);
  distinct = st.distinct;
  inside = st.inside;
}

module _ (keys nexts : List String) (base : String → ℕ) (n : String) where
  abbrev before_step : String → ℕ
  before_step v = base v + occurrences v (n ∷ nexts)

  abbrev after_step : String → ℕ
  after_step v = base v + occurrences v nexts

  -- One edge into `n` less.
  counts_step :
      (indegree : Map ℤ)
      → ((v : String) → degree indegree v ≡ pos (before_step v))
      → (v : String)
      → degree (insert n (degree indegree n -ℤ pos 1) indegree) v ≡ pos (after_step v)
  unfolding occurrences
  counts_step indegree counts v =
      degree-insert n v (degree indegree n -ℤ pos 1) indegree ∙ elim (Bool-cases (str_eq n v)) [
        | inr e ↦ rw e (counts v ∙ rw e refl)
        | inl e ↦ rw e (
            ap (λ (d : ℤ). d -ℤ pos 1)
              (counts n ∙ rw (eq_refl n) (ap (λ (k : ℕ). pos k) (omega arith)))
            ∙ pos-suc-sub-one (after_step n)
            ∙ ap (λ (k : String). pos (after_step k)) ((eq_iff n v).0 e))
      ]

  -- The node does not become free.
  busy_step :
      (reached : List String) (indegree : Map ℤ) (m : ℕ)
      → IsState keys reached before_step indegree
      → after_step n ≡ suc m
      → IsState keys reached after_step (insert n (degree indegree n -ℤ pos 1) indegree)
  unfolding occurrences
  busy_step reached indegree m st busy = record {
    counts = counts_step indegree st.counts;
    free = λ v h. let z = st.free v h in ground arith;
    complete = λ v h z. elim (Bool-cases (str_eq n v)) [
      | inl e ↦ let same = ap after_step ((eq_iff n v).0 e) in absurd (omega arith)
      | inr e ↦ st.complete v h (rw e z)
    ];
    distinct = st.distinct;
    inside = st.inside;
  }

  -- The node becomes free, and is reached.
  free_step :
      (reached : List String) (indegree : Map ℤ)
      → IsState keys reached before_step indegree
      → after_step n ≡ 0
      → holds n keys ≡ true
      → IsState keys (reached ++ n ∷ []) after_step (insert n (degree indegree n -ℤ pos 1) indegree)
  unfolding occurrences
  free_step reached indegree st now_free is_key =
      let unreached : holds n reached ≡ false = elim (Bool-cases (holds n reached)) [
        | inr e ↦ e
        | inl e ↦ let z = rw (eq_refl n) at (st.free n e) in absurd (omega arith)
      ] in
      record {
        counts = counts_step indegree st.counts;
        free = λ v h. elim (holds-append_one v n reached h) [
          | inl old ↦ let z = st.free v old in ground arith
          | inr same ↦ subst (λ (k : String). after_step k ≡ 0) same now_free
        ];
        complete = λ v h z. elim (Bool-cases (str_eq n v)) [
          | inl e ↦
              subst (λ (k : String). holds k (reached ++ n ∷ []) ≡ true) ((eq_iff n v).0 e)
                (append_one-holds_self n reached)
          | inr e ↦ append_one-holds v n reached (st.complete v h (rw e z))
        ];
        distinct = IsDistinct-append_one reached n st.distinct unreached;
        inside = λ v h. elim (holds-append_one v n reached h) [
          | inl old ↦ st.inside v old
          | inr same ↦ subst (λ (k : String). holds k keys ≡ true) same is_key
        ];
      }

relax_one :
    (keys seen ready nexts : List String) (base : String → ℕ) (n : String) (indegree : Map ℤ)
    → IsState keys (seen ++ ready) (λ v. base v + occurrences v (n ∷ nexts)) indegree
    → holds n keys ≡ true
    → IsState keys
        (seen ++ (if is_zero (degree indegree n -ℤ pos 1) then ready ++ n ∷ [] else ready))
        (λ v. base v + occurrences v nexts)
        (insert n (degree indegree n -ℤ pos 1) indegree)
relax_one keys seen ready nexts base n indegree st is_key =
    let left : degree indegree n -ℤ pos 1 ≡ pos (base n + occurrences n nexts) =
      sym (degree-insert n n (degree indegree n -ℤ pos 1) indegree ∙ rw (eq_refl n) refl)
      ∙ counts_step keys nexts base n indegree st.counts n in
    by_count (base n + occurrences n nexts) refl left
  where
    by_count :
        (k : ℕ)
        → base n + occurrences n nexts ≡ k
        → degree indegree n -ℤ pos 1 ≡ pos (base n + occurrences n nexts)
        → IsState keys
            (seen ++ (if is_zero (degree indegree n -ℤ pos 1) then ready ++ n ∷ [] else ready))
            (λ v. base v + occurrences v nexts)
            (insert n (degree indegree n -ℤ pos 1) indegree)
    by_count zero e left = rw (ap is_zero (left ∙ ap (λ (k : ℕ). pos k) e)) (
        subst
          (λ (l : List String).
            IsState keys l (λ v. base v + occurrences v nexts)
              (insert n (degree indegree n -ℤ pos 1) indegree))
          (append_assoc seen ready (n ∷ []))
          (free_step keys nexts base n (seen ++ ready) indegree st e is_key))
    by_count (suc k) e left =
        let not_zero : is_zero (pos (suc k)) ≡ false = ground arith in
        rw (ap is_zero (left ∙ ap (λ (m : ℕ). pos m) e) ∙ not_zero)
          (busy_step keys nexts base n (seen ++ ready) indegree k st e)

-- The loop over the successors takes their edges away.
pub relax-IsState :
    (keys seen nexts : List String) (base : String → ℕ) (ready : List String) (indegree : Map ℤ)
    → ((v : String) → holds v nexts ≡ true → holds v keys ≡ true)
    → IsState keys (seen ++ ready) (λ v. base v + occurrences v nexts) indegree
    → IsState keys (seen ++ (relax nexts ready indegree).0) base (relax nexts ready indegree).1
unfolding relax occurrences holds
relax-IsState keys seen [] base ready indegree inside st =
    IsState-agree keys (seen ++ ready) (λ v. base v + 0) base indegree (λ v. omega arith) st
relax-IsState keys seen (n ∷ nexts) base ready indegree inside st =
    relax-IsState keys seen nexts base _ _ (λ v h. inside v (ground arith))
      (relax_one keys seen ready nexts base n indegree st (inside n (rw (eq_refl n) refl)))
