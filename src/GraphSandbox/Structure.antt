-- ===== src/GraphSandbox/Structure.antt =====
-- src/krewhub/services/graph_sandbox/renderer.py: the steps of a built graph and the edges between
-- them, with the scaffolding of forks and joins left out. The graph is a library's object; the code
-- reads its two dicts, the destinations of its paths and the class names of its nodes.
pub mod Walks
pub mod Edges
pub mod Exact
use krewhub.Prelude.{
  ℕ, zero, suc, String, Bool, true, false, Option, none, some, List, [], ◌∷◌, ◌++◌, ◌&&◌, ◌||◌, not,
  any, length, if◌then◌else◌, ◌==◌,
}
use krewhub.Prelude.Table.{dict_get}

-- A Path: of each of its items the destination_id, where it is a text.
pub record GraphPath : Type 0 where
  pub items : List (Option String)

-- nodes: the class name of each node. A dict that is not there is none.
pub record Graph : Type 0 where
  pub nodes : Option (List (String × String))
  pub edges_by_source : Option (List (String × List GraphPath))

abbrev pub mem : String → List String → Bool
mem id ids = any (λ j. j == id) ids

abbrev pub internal_node_names : List String
internal_node_names = "__start__" ∷ "__end__" ∷ []

abbrev pub internal_node_types : List String
internal_node_types = "StartNode" ∷ "EndNode" ∷ "Fork" ∷ "Join" ∷ []

unfoldable pub is_internal : String → String → Bool
is_internal name kind = mem name internal_node_names || mem kind internal_node_types

-- for item in reversed(items)
abbrev pub last_destination : List (Option String) → Option String → Option String
last_destination [] found = found
last_destination (none ∷ rest) found = last_destination rest found
last_destination (some dest ∷ rest) found = last_destination rest (some dest)

unfoldable pub destination_of_path : GraphPath → Option String
destination_of_path path = last_destination path.items none

-- The dicts as the walk is given them.
pub record Topology : Type 0 where
  pub nodes : List (String × String)
  pub edges_by_source : List (String × List GraphPath)

abbrev pub or_empty : Option (List GraphPath) → List GraphPath
or_empty none = []
or_empty (some paths) = paths

-- edges_by_source.get(current, []) or []
unfoldable pub paths_of : Topology → String → List GraphPath
paths_of g current = or_empty (dict_get current g.edges_by_source)

-- What the body of the loop over paths does with one.
pub data Hop : Type 0 where
  skip : Hop
  through : String → Hop
  arrive : String → Hop

abbrev pub classify : String → Option String → Hop
classify dest none = skip
classify dest (some kind) = if is_internal dest kind then through dest else arrive dest

abbrev pub hop_to : Topology → Option String → Hop
hop_to g none = skip
hop_to g (some dest) = classify dest (dict_get dest g.nodes)

unfoldable pub hop : Topology → GraphPath → Hop
hop g path = hop_to g (destination_of_path path)

-- visited and results
pub record Walk : Type 0 where
  pub visited : List String
  pub results : List String

abbrev pub no_walk : Walk
no_walk = record { visited = []; results = [] }

abbrev pub and_then : Option Walk → (Walk → Option Walk) → Option Walk
and_then none k = none
and_then (some w) k = k w

-- One path, then the others; `go` is the call of walk, and none says that it ran out of fuel.
abbrev pub take_hop :
    (String → Walk → Option Walk) → (Walk → Option Walk) → Hop → Walk → Option Walk
take_hop go others skip w = others w
take_hop go others (through dest) w = and_then (go dest w) others
take_hop go others (arrive dest) w = others (record w { results = w.results ++ dest ∷ [] })

-- The loop over paths.
unfoldable pub follow :
    (String → Walk → Option Walk) → Topology → List GraphPath → Walk → Option Walk
follow go g [] w = some w
follow go g (path ∷ paths) w = take_hop go (follow go g paths) (hop g path) w

unfoldable pub walk : ℕ → Topology → String → Walk → Option Walk
walk zero g current w = none
walk (suc fuel) g current w = elim (mem current w.visited) [
  | true ↦ some w
  | false ↦ follow (walk fuel g) g (paths_of g current) (record w { visited = current ∷ w.visited })
]

abbrev pub results_of : Option Walk → List String
results_of none = []
results_of (some w) = w.results

-- A walk marks a node each time it goes deeper, so the number of nodes bounds its depth.
unfoldable pub resolve_user_destinations : Topology → String → List String
resolve_user_destinations g source_id =
    results_of (follow (walk (suc (length g.nodes)) g) g (paths_of g source_id) no_walk)

abbrev pub pair_eq : String × String → String × String → Bool
pair_eq p q = (p.0 == q.0) && (p.1 == q.1)

abbrev pub mem_pair : String × String → List (String × String) → Bool
mem_pair p ps = any (λ q. pair_eq q p) ps

-- The inner loop; `seen` holds just the pairs of `edges`.
unfoldable pub add_edges :
    List String → String → List String → List (String × String) → List (String × String)
add_edges user_nodes src [] edges = edges
add_edges user_nodes src (dst ∷ dsts) edges = add_edges user_nodes src dsts (
    if mem dst user_nodes && not (mem_pair (src, dst) edges)
    then edges ++ (src, dst) ∷ []
    else edges)

unfoldable pub edges_from :
    Topology → List String → List String → List (String × String) → List (String × String)
edges_from g user_nodes [] edges = edges
edges_from g user_nodes (src ∷ srcs) edges =
    edges_from g user_nodes srcs (add_edges user_nodes src (resolve_user_destinations g src) edges)

-- for src in user_nodes: the order of a set is that of the parameter.
abbrev pub extract_edges :
    (List String → List String)
    → List (String × String)
    → Option (List (String × List GraphPath))
    → List String
    → List (String × String)
extract_edges arrange nodes none user_nodes = []
extract_edges arrange nodes (some edges_by_source) user_nodes =
    edges_from (record { nodes = nodes; edges_by_source = edges_by_source }) user_nodes
      (arrange user_nodes) []

unfoldable pub user_steps : List (String × String) → List String
user_steps [] = []
user_steps ((name, kind) ∷ nodes) =
    let rest = user_steps nodes in if is_internal name kind then rest else name ∷ rest

abbrev pub structure_of :
    (List String → List String)
    → Option (List (String × String))
    → Option (List (String × List GraphPath))
    → List String × List (String × String)
structure_of arrange none edges_by_source = ([], [])
structure_of arrange (some nodes) edges_by_source =
    let node_ids = user_steps nodes in
    (node_ids, extract_edges arrange nodes edges_by_source node_ids)

unfoldable pub extract_graph_structure :
    (List String → List String) → Graph → List String × List (String × String)
extract_graph_structure arrange graph = structure_of arrange graph.nodes graph.edges_by_source
