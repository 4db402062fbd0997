-- ===== src/Engine.antt =====
-- libraries/dbal/production/src/workflow/wf_executor.cpp: the nodes of a workflow, run in their
-- order, and the relations of src/workflow/wf_compare.cpp. What a step does is a function of the node
-- and of the state, the variables and what the client holds.
pub mod Context
pub mod Runs
use dbal.Prelude.{
  ℕ, String, Bool, true, false, not, Option, none, some, List, [], ◌∷◌, ◌++◌, map, if◌then◌else◌,
  codes, str_eq,
}
use dbal.Bql.Lexer.{Text}
use dbal.Bql.Cursor.{text_eq, to_lower}
use dbal.Json.{
  Json, Items, Members, null, boolean, number, text, array, object, no_items, item, no_members,
  member, find_member,
}
use dbal.Listing.{has_infix}
use dbal.Engine.Context.{Variables, resolve, shown_text, members_of}

pub record WfNode : Type 0 where
  pub id : Text
  pub type : Text
  pub parameters : Json
  pub outputs : Json

-- `none` is an exception of the JSON library, here for a field that is no string.
abbrev pub text_of : Option Json → Option Text
text_of none = some []
text_of (some (text s)) = some s
text_of (some v) = none

abbrev pub or_object : Option Json → Json
or_object none = object no_members
or_object (some v) = v

abbrev pub with_texts : Option Text → Option Text → Json → Json → Option WfNode
with_texts (some id) (some type) parameters outputs =
    some (record { id = id; type = type; parameters = parameters; outputs = outputs })
with_texts id type parameters outputs = none

-- `value` on a node that is no object throws.
unfoldable pub node_of : Option Members → Option WfNode
unfolding find_member
node_of none = none
node_of (some ms) =
    with_texts (text_of (find_member (codes "id") ms)) (text_of (find_member (codes "type") ms))
      (or_object (find_member (codes "parameters") ms))
      (or_object (find_member (codes "outputs") ms))

abbrev pub cons_node : Option WfNode → Option (List WfNode) → Option (List WfNode)
cons_node (some node) (some nodes) = some (node ∷ nodes)
cons_node first rest = none

-- The loop over the array; an exception of any node ends it.
unfoldable pub nodes_of : Items → Option (List WfNode)
unfolding node_of
nodes_of no_items = some []
nodes_of (item n is) = cons_node (node_of (members_of n)) (nodes_of is)

abbrev pub items_of : Option Json → Option Items
items_of (some (array is)) = some is
items_of v = none

-- `none` is the exception for a document without an array of nodes, or that of a node.
unfoldable pub parse_nodes : Json → Option (List WfNode)
unfolding nodes_of find_member
parse_nodes (object ms) = elim (items_of (find_member (codes "nodes") ms)) [
  | none ↦ none
  | some is ↦ nodes_of is
]
parse_nodes v = none

-- How a step ends: it returns, it throws WfStop, or it throws an error. Each leaves a state.
pub data StepEnd (S : Type 0) : Type 0 where
  returns : S → StepEnd S
  stops : S → StepEnd S
  throws : S → StepEnd S

-- How a run ends: at the end of the nodes, at a stop, or with the error of a step.
pub data RunEnd (S : Type 0) : Type 0 where
  completed : S → RunEnd S
  stopped : S → RunEnd S
  failed : S → RunEnd S

-- `W` is what the client holds.
module _ (W : Type 0) where
  abbrev pub EngineState : Type 0
  EngineState = Variables × W

  abbrev pub Step : Type 0
  Step = WfNode → EngineState → StepEnd EngineState

  abbrev pub Steps : Type 0
  Steps = List (Text × Step)

  -- A later registration of a type takes the place of an earlier one.
  unfoldable pub register_step : Text → Step → Steps → Steps
  register_step type step steps = (type, step) ∷ steps

  unfoldable pub find_step : Text → Steps → Option Step
  unfolding text_eq
  find_step type [] = none
  find_step type ((t, step) ∷ steps) = if text_eq t type then some step else find_step type steps

  abbrev pub resolved : (Json → Text) → WfNode → EngineState → WfNode
  resolved dump node s = record node { parameters = resolve dump s.0 node.parameters }

  -- The loop over the nodes: an unknown type is skipped.
  unfoldable pub execute_nodes :
      (Json → Text) → Steps → List WfNode → EngineState → RunEnd EngineState
  unfolding find_step resolve
  execute_nodes dump steps [] s = completed s
  execute_nodes dump steps (node ∷ nodes) s = elim (find_step node.type steps) [
    | none ↦ execute_nodes dump steps nodes s
    | some step ↦ elim (step (resolved dump node s) s) [
      | returns t ↦ execute_nodes dump steps nodes t
      | stops t ↦ stopped t
      | throws t ↦ failed t
    ]
  ]

-- `asText`, for which a text stands as it is and null as nothing.
unfoldable pub as_text : (Json → Text) → Json → Text
as_text dump v = shown_text dump v

abbrev pub no_bytes : Text → Bool
no_bytes [] = true
no_bytes (c ∷ cs) = false

abbrev pub is_true : (Json → Text) → Json → Bool
is_true dump (boolean b) = b
is_true dump v = text_eq (to_lower (as_text dump v)) (codes "true")

-- The relation in lower case, with the value and the one beside it; an unknown relation holds for
-- nothing.
unfoldable pub compare_holds : (Json → Text) → Text → Json → Json → Bool
unfolding as_text has_infix text_eq
compare_holds dump is value other =
    let rel = to_lower is in
    let got = as_text dump value in
    let want = as_text dump other in
    if text_eq rel (codes "empty")
    then no_bytes got
    else if text_eq rel (codes "not empty")
    then not (no_bytes got)
    else if text_eq rel (codes "equals")
    then text_eq got want
    else if text_eq rel (codes "does not equal")
    then not (text_eq got want)
    else if text_eq rel (codes "contains")
    then has_infix got want
    else if text_eq rel (codes "does not contain")
    then not (has_infix got want)
    else if text_eq rel (codes "is true")
    then is_true dump value
    else false
