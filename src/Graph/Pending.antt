-- ===== src/Graph/Pending.antt =====
-- libraries/dbal/production/src/workflow/wf_graph_order.cpp: what the two maps hold, the edges that
-- come from nodes that are not ordered yet.
use dbal.Prelude.{
  ℕ, suc, ◌+◌, ◌≡◌, refl, sym, ap, ◌∙◌, subst, String, Bool, true, false, not, ◌&&◌, ◌||◌, List, [],
  ◌∷◌, ◌++◌, str_eq, eq_iff, if◌then◌else◌, arith, Bool-cases, Member, inl, inr,
}
use dbal.Prelude.Int.{ℤ, pos, ◌+ℤ◌, pos-add-pos}
use dbal.Prelude.Texts.{holds}
use dbal.Map.{Map, insert, lookup-insert}
use dbal.Graph.{Edge, Links, is_known, successors, degree, no_degrees, link, add_edges}
use dbal.Graph.Distinct.{holds-append, holds-one}

abbrev pub count_if : Bool → ℕ → ℕ
count_if b n = if b then suc n else n

-- The known edges into `v` from nodes that are not in `seen`.
unfoldable pub pending : List String → List Edge → List String → String → ℕ
unfolding holds
pending known [] seen v = 0
pending known ((from, to) ∷ edges) seen v =
    count_if (is_known known (from, to) && str_eq to v && not (holds from seen))
      (pending known edges seen v)

abbrev pub when : Bool → String → List String → List String
when b x xs = if b then x ∷ xs else xs

-- The targets of the known edges from `key`.
unfoldable pub targets : List String → List Edge → String → List String
unfolding holds
targets known [] key = []
targets known ((from, to) ∷ edges) key =
    when (is_known known (from, to) && str_eq from key) to (targets known edges key)

unfoldable pub occurrences : String → List String → ℕ
occurrences v [] = 0
occurrences v (x ∷ xs) = count_if (str_eq x v) (occurrences v xs)

pub degree-insert :
    (key v : String) (d : ℤ) (m : Map ℤ)
    → degree (insert key d m) v ≡ (if str_eq key v then d else degree m v)
unfolding degree
degree-insert key v d m = elim (Bool-cases (str_eq key v)) [
  | inl e ↦ rw (lookup-insert key v d m) (rw e refl)
  | inr e ↦ rw (lookup-insert key v d m) (rw e refl)
]

successors-insert :
    (key v : String) (d : List String) (m : Map (List String))
    → successors (insert key d m) v ≡ (if str_eq key v then d else successors m v)
unfolding successors
successors-insert key v d m = elim (Bool-cases (str_eq key v)) [
  | inl e ↦ rw (lookup-insert key v d m) (rw e refl)
  | inr e ↦ rw (lookup-insert key v d m) (rw e refl)
]

pub degree-no_degrees :
    (keys : List String) (m : Map ℤ) (v : String)
    → degree m v ≡ pos 0
    → degree (no_degrees keys m) v ≡ pos 0
unfolding no_degrees
degree-no_degrees [] m v h = h
degree-no_degrees (key ∷ keys) m v h = degree-no_degrees keys (insert key (pos 0) m) v (
    degree-insert key v (pos 0) m
    ∙ elim (Bool-cases (str_eq key v)) [ inl e ↦ rw e refl | inr e ↦ rw e h ])

degree-link :
    (b : Bool) (from to v : String) (links : Links) (n : ℕ)
    → degree links.1 v ≡ pos n
    → degree (if b then link (from, to) links else links).1 v ≡ pos (count_if (b && str_eq to v) n)
unfolding link
degree-link false from to v links n h = h
degree-link true from to v (out, indegree) n h = elim (Bool-cases (str_eq to v)) [
  | inr e ↦ degree-insert to v (degree indegree to +ℤ pos 1) indegree ∙ rw e h
  | inl e ↦
      degree-insert to v (degree indegree to +ℤ pos 1) indegree
      ∙ rw e (
          ap (λ (k : String). degree indegree k +ℤ pos 1) ((eq_iff to v).0 e)
          ∙ ap (λ (d : ℤ). d +ℤ pos 1) h
          ∙ pos-add-pos n 1
          ∙ ap (λ (k : ℕ). pos k) (omega arith))
]

count_either : (b t : Bool) (n p : ℕ) → count_if (b && t) n + p ≡ n + count_if (b && t && true) p
count_either false t n p = refl
count_either true false n p = refl
count_either true true n p = omega arith

-- Before any node is ordered, every known edge is pending.
pub degree-add_edges :
    (known : List String) (edges : List Edge) (links : Links) (v : String) (n : ℕ)
    → degree links.1 v ≡ pos n
    → degree (add_edges known edges links).1 v ≡ pos (n + pending known edges [] v)
unfolding add_edges pending holds
degree-add_edges known [] links v n h = h ∙ ap (λ (k : ℕ). pos k) (omega arith)
degree-add_edges known ((from, to) ∷ edges) links v n h =
    let b = is_known known (from, to) in
    degree-add_edges known edges (if b then link (from, to) links else links) v
      (count_if (b && str_eq to v) n) (degree-link b from to v links n h)
    ∙ ap (λ (k : ℕ). pos k) (count_either b (str_eq to v) n (pending known edges [] v))

pub append_assoc : (xs ys zs : List String) → (xs ++ ys) ++ zs ≡ xs ++ (ys ++ zs)
append_assoc [] ys zs = refl
append_assoc (x ∷ xs) ys zs = ap (λ (l : List String). x ∷ l) (append_assoc xs ys zs)

pub append_nil : (xs : List String) → xs ++ [] ≡ xs
append_nil [] = refl
append_nil (x ∷ xs) = ap (λ (l : List String). x ∷ l) (append_nil xs)

successors-link :
    (b : Bool) (from to key : String) (links : Links) (rest : List String)
    → successors (if b then link (from, to) links else links).0 key ++ rest
      ≡ successors links.0 key ++ when (b && str_eq from key) to rest
unfolding link
successors-link false from to key links rest = refl
successors-link true from to key (out, indegree) rest = elim (Bool-cases (str_eq from key)) [
  | inr e ↦ ap (λ (l : List String). l ++ rest) (successors-insert from key _ out) ∙ rw e refl
  | inl e ↦
      ap (λ (l : List String). l ++ rest) (successors-insert from key _ out)
      ∙ rw e (
          ap (λ (k : String). (successors out k ++ to ∷ []) ++ rest) ((eq_iff from key).0 e)
          ∙ append_assoc (successors out key) (to ∷ []) rest)
]

pub successors-add_edges :
    (known : List String) (edges : List Edge) (links : Links) (key : String)
    → successors (add_edges known edges links).0 key
      ≡ successors links.0 key ++ targets known edges key
unfolding add_edges targets holds
successors-add_edges known [] links key = sym (append_nil (successors links.0 key))
successors-add_edges known ((from, to) ∷ edges) links key =
    successors-add_edges known edges _ key
    ∙ successors-link (is_known known (from, to)) from to key links (targets known edges key)

moved :
    (b : Bool) (from to key v : String) (seen tos : List String) (p : ℕ)
    → holds key seen ≡ false
    → count_if (b && str_eq to v && not (holds from seen)) (p + occurrences v tos)
      ≡ count_if (b && str_eq to v && not (holds from seen || str_eq key from)) p
        + occurrences v (when (b && str_eq from key) to tos)
unfolding occurrences
moved false from to key v seen tos p h = refl
moved true from to key v seen tos p h = ground (arith, eq_iff from key, eq_iff key from)

-- A node that is ordered takes the edges from it away.
pub pending-append_one :
    (known : List String) (edges : List Edge) (seen : List String) (key v : String)
    → holds key seen ≡ false
    → pending known edges seen v
      ≡ pending known edges (seen ++ key ∷ []) v + occurrences v (targets known edges key)
unfolding pending targets occurrences
pending-append_one known [] seen key v h = refl
pending-append_one known ((from, to) ∷ edges) seen key v h =
    ap (count_if (is_known known (from, to) && str_eq to v && not (holds from seen)))
      (pending-append_one known edges seen key v h)
    ∙ rw (holds-append from seen (key ∷ []), holds-one from key)
        (moved (is_known known (from, to)) from to key v seen (targets known edges key)
          (pending known edges (seen ++ key ∷ []) v) h)

-- With no edge pending, each known edge into the node comes from one that is ordered.
pub pending-zero :
    (known : List String) (edges : List Edge) (seen : List String) (u v : String)
    → pending known edges seen v ≡ 0
    → Member (u, v) edges
    → is_known known (u, v) ≡ true
    → holds u seen ≡ true
unfolding pending
pending-zero known [] seen u v h m k = absurd m
pending-zero known ((from, to) ∷ edges) seen u v h (inl e) k =
    let at : u ≡ from = ap (λ (x : Edge). x.0) e in
    let into : v ≡ to = ap (λ (x : Edge). x.1) e in
    let known_edge : is_known known (from, to) ≡ true =
      subst (λ (x : Edge). is_known known x ≡ true) e k in
    let target : str_eq to v ≡ true = (eq_iff to v).1 (sym into) in
    elim (Bool-cases (holds from seen)) [
      | inl x ↦ subst (λ (w : String). holds w seen ≡ true) (sym at) x
      | inr x ↦ absurd (cc (rw (known_edge, target, x) at h))
    ]
pending-zero known ((from, to) ∷ edges) seen u v h (inr m) k =
    pending-zero known edges seen u v (ground arith) m k

abbrev same_edge : String → String → Edge
same_edge from to = (from, to)

-- And the other way round.
pub pending-none :
    (known : List String) (edges : List Edge) (seen : List String) (v : String)
    → ((u : String) → Member (u, v) edges → is_known known (u, v) ≡ true → holds u seen ≡ true)
    → pending known edges seen v ≡ 0
unfolding pending
pending-none known [] seen v h = refl
pending-none known ((from, to) ∷ edges) seen v h =
    let rest = pending-none known edges seen v (λ u m k. h u (inr m) k) in
    elim (Bool-cases (is_known known (from, to))) [
      | inr e ↦ rw e rest
      | inl e ↦ elim (Bool-cases (str_eq to v)) [
        | inr e2 ↦ rw (e, e2) rest
        | inl e2 ↦
            let into : to ≡ v = (eq_iff to v).0 e2 in
            let edge : ◌≡◌ {A = Edge} (from, v) (from, to) =
              ap (λ (w : String). same_edge from w) (sym into) in
            let ordered =
              h from (inl edge) (subst (λ (x : Edge). is_known known x ≡ true) (sym edge) e) in
            rw (e, e2, ordered) rest
      ]
    ]
