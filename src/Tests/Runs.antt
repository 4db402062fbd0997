-- ===== src/Tests/Runs.antt =====
-- libraries/dbal/production/include/workflow/wf_context.hpp, src/workflow/wf_executor.cpp: the
-- theorems on a template, a value and a run.
use dbal.Prelude.{ℕ, ◌≡◌, ◌↔◌, refl, suc, String, List, [], ◌∷◌, codes}
use dbal.Bql.Lexer.{Text}
use dbal.Bql.Cursor.{text_eq}
use dbal.Json.{Json, null, text, object, no_members, member, find_member, set_member, text_lt}
use dbal.Engine.Context.{
  Variables, set, get, get_path, split_path, placeholder, until_brace, interpolate, resolve_str,
  resolve_text, resolve,
}
use dbal.Engine.Context.Templates.{
  Part, literal, variable, are_parts, opens_key, lacks, written, values_of, resolve_str-written,
}
use dbal.Engine.{
  WfNode, Steps, returns, stops, stopped, RunEnd, EngineState, find_step, execute_nodes,
}
use dbal.Engine.Runs.{Ends, execute_nodes-Ends}

abbrev dump : Json → Text
dump v = codes "?"

-- The variables {"event": {"id": "7"}, "x": "ok"}.
abbrev vars : Variables
vars =
    member (codes "event") (object (member (codes "id") (text (codes "7")) no_members))
      (member (codes "x") (text (codes "ok")) no_members)

abbrev parts : List Part
parts =
    literal 97
    ∷ literal 36
    ∷ variable (codes "event.id")
    ∷ literal 36
    ∷ literal 125
    ∷ variable (codes "none")
    ∷ literal 36
    ∷ literal 123
    ∷ []

resolve_str-written_example : resolve_str dump vars (written parts) ≡ values_of dump vars parts
unfolding lacks opens_key written are_parts
resolve_str-written_example = resolve_str-written dump vars parts refl

event_id : resolve_str dump vars (codes "a${event.id}}${none}") ≡ codes "a7}"
unfolding resolve_str interpolate placeholder until_brace get split_path get_path find_member
    text_eq
event_id = refl

whole_value :
    resolve dump vars (text (codes "${event}"))
    ≡ object (member (codes "id") (text (codes "7")) no_members)
unfolding resolve resolve_text placeholder until_brace get split_path get_path find_member text_eq
whole_value = refl

-- One step counts and the other stops.
abbrev steps : Steps ℕ
steps =
    (codes "count", (λ node s. returns (set (codes "last") node.parameters s.0, suc s.1)))
    ∷ (codes "stop", (λ node s. stops s))
    ∷ []

abbrev node : String → WfNode
node type = record {
  id = codes "n";
  type = codes type;
  parameters = text (codes "${x}");
  outputs = null;
}

abbrev front : List WfNode
front = node "count" ∷ node "unknown" ∷ node "stop" ∷ []

abbrev halted : RunEnd (EngineState ℕ)
halted = stopped (set (codes "last") (text (codes "ok")) vars, 1)

execute_nodes-Ends_example :
    (execute_nodes ℕ dump steps front (vars, 0) ≡ halted) ↔ Ends ℕ dump steps front (vars, 0) halted
execute_nodes-Ends_example = execute_nodes-Ends ℕ dump steps front (vars, 0) halted

front_stops : execute_nodes ℕ dump steps front (vars, 0) ≡ halted
unfolding execute_nodes find_step text_eq resolve resolve_text placeholder until_brace get
    split_path get_path find_member set set_member text_lt
front_stops = refl
