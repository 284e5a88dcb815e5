-- ===== src/Samples/Sandbox.antt =====
-- A graph's code and a built graph: tests, and one application of each theorem.
use krewhub.Prelude.{String, ◌≡◌, refl, Bool, true, false, none, some, List, [], ◌∷◌, ◌==◌, ◌↔◌}
use krewhub.GraphSandbox.Syntax.{
  Node, Nodes, load, store, import_from, disallowed, async_function_def, name, attribute, call,
  assign, ann_assign, other, nil, cons,
}
use krewhub.GraphSandbox.Validator
use krewhub.GraphSandbox.Validator.{
  Parsed, tree, validate_graph_code, accepted, has_graph_assign, collect, mem, syntax_error,
}
use krewhub.GraphSandbox.Validator.Safe.{AreSafe}
use krewhub.GraphSandbox.Validator.Exact.{NamesFunctions, BindsAll, validate_graph_code-safe}
use krewhub.GraphSandbox.Validator.Complete.{validate_graph_code-unchecked_target}
use krewhub.GraphSandbox.Structure
use krewhub.GraphSandbox.Structure.{GraphPath, Graph, Topology, extract_graph_structure, mem_pair}
use krewhub.GraphSandbox.Structure.Walks.{Leads, IsIn}
use krewhub.GraphSandbox.Structure.Edges.{AreDistinct, extract_graph_structure-exact}

-- g = GraphBuilder()
abbrev builder : Node
builder = assign 1 (cons (name 1 "g" store) nil) (call 1 (name 1 "GraphBuilder" load) nil)

-- @g.step
-- async def plan(ctx): dispatch_cycle(ctx)
abbrev step : Node
step =
    async_function_def 3 "plan" (cons (other none "arguments" [] nil) nil)
      (cons (call 4 (name 4 "dispatch_cycle" load) (cons (name 4 "ctx" load) nil)) nil)
      (cons (attribute 2 (name 2 "g" load) "step") nil) nil

-- graph = g.build()
abbrev built : Node
built =
    assign 5 (cons (name 5 "graph" store) nil) (call 5 (attribute 5 (name 5 "g" load) "build") nil)

abbrev body : Nodes
body = cons builder (cons step (cons built nil))

-- ctx.__class__: int
abbrev odd_target : Node
odd_target = attribute 1 (name 1 "ctx" load) "__class__"

abbrev parse : String → Parsed
parse code = if_else (code == "plan") (tree body) (
    if_else (code == "odd") (tree (cons (ann_assign 1 odd_target (name 1 "int" load) nil) body))
      (syntax_error none))
  where
    if_else : Bool → Parsed → Parsed → Parsed
    if_else true p q = p
    if_else false p q = q

abbrev bound : String → Bool
bound id = mem id ("g" ∷ "plan" ∷ "graph" ∷ [])

plan_accepted : validate_graph_code parse "plan" ≡ accepted
unfolding validate_graph_code Validator.judge Validator.visit_module Validator.visit
    Validator.visit_name Validator.check_name Validator.collect Validator.collect_stmt
    Validator.define_targets Validator.define Validator.define_step Validator.check_decorators
    Validator.check_targets Validator.has_graph_assign Validator.flag
plan_accepted = refl

import_rejected :
    Validator.judge (cons (disallowed 1 import_from nil) body)
    ≡ Validator.rejected
        (record { line = some 1; reason = Validator.disallowed_construct import_from } ∷ [])
        (some 1)
unfolding Validator.judge Validator.visit_module Validator.visit Validator.visit_name
    Validator.check_name Validator.collect Validator.collect_stmt Validator.define_targets
    Validator.define Validator.define_step Validator.check_decorators Validator.check_targets
    Validator.has_graph_assign Validator.flag
import_rejected = refl

body-NamesFunctions : NamesFunctions bound body
body-NamesFunctions = (tt, (refl, (tt, tt)))

body-BindsAll : BindsAll bound body
unfolding BindsAll
body-BindsAll = (
  ((refl, tt), (tt, tt)),
  (((tt, tt), ((tt, (tt, tt)), tt), (tt, tt), tt), (((refl, tt), (tt, tt)), tt)),
)

validate_graph_code-safe_example : (has_graph_assign body ≡ true) × AreSafe bound body
validate_graph_code-safe_example =
    validate_graph_code-safe parse "plan" body bound refl body-NamesFunctions body-BindsAll
      plan_accepted

validate_graph_code-unchecked_target_example :
    validate_graph_code parse "odd" ≡ validate_graph_code parse "plan"
validate_graph_code-unchecked_target_example =
    validate_graph_code-unchecked_target parse "plan" body 1 1 odd_target "odd" refl refl refl

abbrev to : String → GraphPath
to id = record { items = none ∷ some id ∷ [] }

abbrev nodes : List (String × String)
nodes =
    ("__start__", "StartNode")
    ∷ ("plan", "Step")
    ∷ ("fork_1", "Fork")
    ∷ ("code", "Step")
    ∷ ("test", "Step")
    ∷ []

abbrev edges : List (String × List GraphPath)
edges =
    ("__start__", to "plan" ∷ [])
    ∷ ("plan", to "fork_1" ∷ [])
    ∷ ("fork_1", to "code" ∷ to "test" ∷ to "fork_1" ∷ [])
    ∷ []

abbrev graph : Graph
graph = record { nodes = some nodes; edges_by_source = some edges }

shown_graph :
    extract_graph_structure (λ ids. ids) graph
    ≡ ("plan" ∷ "code" ∷ "test" ∷ [], ("plan", "code") ∷ ("plan", "test") ∷ [])
unfolding extract_graph_structure Structure.user_steps Structure.is_internal Structure.edges_from
    Structure.add_edges Structure.resolve_user_destinations Structure.follow Structure.walk
    Structure.hop Structure.destination_of_path Structure.paths_of
shown_graph = refl

extract_graph_structure-exact_example :
    let out = extract_graph_structure (λ ids. ids) graph in
    AreDistinct out.1
    × ((mem_pair ("plan", "test") out.1 ≡ true) ↔ (
        IsIn "plan" out.0
        × IsIn "test" out.0
        × Leads (record { nodes = nodes; edges_by_source = edges }) "plan" "test"))
extract_graph_structure-exact_example =
    extract_graph_structure-exact (λ ids. ids) nodes edges "plan" "test" (λ ids id. refl)
