-- ===== src/Engine/Runs.antt =====
-- libraries/dbal/production/src/workflow/wf_executor.cpp: how a run ends.
use dbal.Prelude.{
  ◌≡◌, ◌↔◌, refl, ◌∙◌, none, some, List, [], ◌∷◌, ◌++◌, Option-cases, inl, inr, ◌⊎◌, ap, subst,
}
use dbal.Bql.Lexer.{Text}
use dbal.Json.{Json}
use dbal.Engine.{
  WfNode, StepEnd, returns, stops, throws, RunEnd, completed, stopped, failed, EngineState, Step,
  Steps, find_step, resolved, execute_nodes,
}

-- How a step ended.
end_cases :
    {S : Type 0} (e : StepEnd S)
    → ((t : S) × (e ≡ returns t)) ⊎ (((t : S) × (e ≡ stops t)) ⊎ ((t : S) × (e ≡ throws t)))
end_cases (returns t) = inl (t, refl)
end_cases (stops t) = inr (inl (t, refl))
end_cases (throws t) = inr (inr (t, refl))

module _ (W : Type 0) (dump : Json → Text) (steps : Steps W) where
  -- The nodes lead from `s` to `t`: the step of each node returns, and a node of an unknown type
  -- changes nothing.
  pub data Completes : List WfNode → EngineState W → EngineState W → Type 0 where
    no_nodes : {s : EngineState W} → Completes [] s s
    unknown :
        {node : WfNode} {nodes : List WfNode} {s t : EngineState W}
        → find_step W node.type steps ≡ none
        → Completes nodes s t
        → Completes (node ∷ nodes) s t
    known :
        {node : WfNode} {nodes : List WfNode} {s t u : EngineState W} (step : Step W)
        → find_step W node.type steps ≡ some step
        → step (resolved W dump node s) s ≡ returns t
        → Completes nodes t u
        → Completes (node ∷ nodes) s u

  -- Some node ends with `e`, in the state to which the nodes before it lead.
  pub EndsAt : StepEnd (EngineState W) → List WfNode → EngineState W → Type 0
  EndsAt e nodes s =
      (before : List WfNode) × (node : WfNode) × (behind : List WfNode) × (t : EngineState W)
      × (step : Step W) × (nodes ≡ before ++ node ∷ behind)
      × Completes before s t
      × (find_step W node.type steps ≡ some step)
      × (step (resolved W dump node t) t ≡ e)

  -- What the end of a run says of its nodes.
  pub Ends : List WfNode → EngineState W → RunEnd (EngineState W) → Type 0
  Ends nodes s (completed t) = Completes nodes s t
  Ends nodes s (stopped t) = EndsAt (stops t) nodes s
  Ends nodes s (failed t) = EndsAt (throws t) nodes s

  -- A node whose step leads from `s` to `t`, or that is skipped with `t` as `s`.
  Passes : WfNode → EngineState W → EngineState W → Type 0
  Passes node s t =
      (nodes : List WfNode) (u : EngineState W) → Completes nodes t u → Completes (node ∷ nodes) s u

  EndsAt-behind :
      (e : StepEnd (EngineState W)) (node : WfNode) (nodes : List WfNode) (s t : EngineState W)
      → Passes node s t
      → EndsAt e nodes t
      → EndsAt e (node ∷ nodes) s
  unfolding Passes EndsAt
  EndsAt-behind e node nodes s t pass (before, at, behind, u, step, split, lead, found, ended) = (
    node ∷ before,
    at,
    behind,
    u,
    step,
    ap (λ (l : List WfNode). node ∷ l) split,
    pass before u lead,
    found,
    ended,
  )

  Ends-behind :
      (node : WfNode) (nodes : List WfNode) (s t : EngineState W) (r : RunEnd (EngineState W))
      → Passes node s t
      → Ends nodes t r
      → Ends (node ∷ nodes) s r
  unfolding Ends Passes
  Ends-behind node nodes s t (completed u) pass h = pass nodes u h
  Ends-behind node nodes s t (stopped u) pass h = EndsAt-behind (stops u) node nodes s t pass h
  Ends-behind node nodes s t (failed u) pass h = EndsAt-behind (throws u) node nodes s t pass h

  Ends-execute_nodes :
      (nodes : List WfNode) (s : EngineState W) → Ends nodes s (execute_nodes W dump steps nodes s)
  unfolding execute_nodes Ends EndsAt Passes
  Ends-execute_nodes [] s = no_nodes
  Ends-execute_nodes (node ∷ nodes) s = elim (Option-cases (find_step W node.type steps)) [
    | inl q ↦
        rw (q, execute_nodes)
          (Ends-behind node nodes s s (execute_nodes W dump steps nodes s) (λ ns u c. unknown q c)
            (Ends-execute_nodes nodes s))
    | inr (step, q) ↦ elim (end_cases (step (resolved W dump node s) s)) [
      | inl (t, r) ↦
          rw (q, r, execute_nodes)
            (Ends-behind node nodes s t (execute_nodes W dump steps nodes t)
              (λ ns u c. known step q r c) (Ends-execute_nodes nodes t))
      | inr (inl (t, r)) ↦ rw (q, r, execute_nodes) ([], node, nodes, s, step, refl, no_nodes, q, r)
      | inr (inr (t, r)) ↦ rw (q, r, execute_nodes) ([], node, nodes, s, step, refl, no_nodes, q, r)
    ]
  ]

  run-Completes :
      {nodes : List WfNode} {s t : EngineState W}
      → Completes nodes s t
      → execute_nodes W dump steps nodes s ≡ completed t
  unfolding execute_nodes
  run-Completes no_nodes = refl
  run-Completes (unknown q c) = rw (q, execute_nodes) (run-Completes c)
  run-Completes (known step q r c) = rw (q, r, execute_nodes) (run-Completes c)

  -- Nodes behind those that complete run in the state to which these lead.
  run-behind :
      {before : List WfNode} {s t : EngineState W} (nodes : List WfNode)
      → Completes before s t
      → execute_nodes W dump steps (before ++ nodes) s ≡ execute_nodes W dump steps nodes t
  unfolding execute_nodes
  run-behind nodes no_nodes = refl
  run-behind nodes (unknown q c) = rw (q, execute_nodes) (run-behind nodes c)
  run-behind nodes (known step q r c) = rw (q, r, execute_nodes) (run-behind nodes c)

  run_of_Ends :
      (nodes : List WfNode) (s : EngineState W) (r : RunEnd (EngineState W))
      → Ends nodes s r
      → execute_nodes W dump steps nodes s ≡ r
  unfolding Ends EndsAt execute_nodes
  run_of_Ends nodes s (completed t) h = run-Completes h
  run_of_Ends nodes s (stopped u) (before, node, behind, t, step, split, lead, q, r) =
      ap (λ (l : List WfNode). execute_nodes W dump steps l s) split
      ∙ run-behind (node ∷ behind) lead
      ∙ rw (q, r, execute_nodes) refl
  run_of_Ends nodes s (failed u) (before, node, behind, t, step, split, lead, q, r) =
      ap (λ (l : List WfNode). execute_nodes W dump steps l s) split
      ∙ run-behind (node ∷ behind) lead
      ∙ rw (q, r, execute_nodes) refl

  -- A run completes in a state exactly if the steps of its nodes return one after the other and lead
  -- there, nodes of an unknown type being skipped. It is stopped, or fails, in a state exactly if some
  -- step stops, or throws, with that state, run in the state to which the nodes before it lead.
  pub execute_nodes-Ends :
      (nodes : List WfNode) (s : EngineState W) (r : RunEnd (EngineState W))
      → (execute_nodes W dump steps nodes s ≡ r) ↔ Ends nodes s r
  execute_nodes-Ends nodes s r =
      (λ e. subst (Ends nodes s) e (Ends-execute_nodes nodes s), run_of_Ends nodes s r)
