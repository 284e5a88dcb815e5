-- ===== src/GraphSandbox/Structure/Edges.antt =====
-- The edges that src/krewhub/services/graph_sandbox/renderer.py shows between the steps of a graph.
use mathlib.Core.Path.{subst}
use krewhub.Prelude.{
  String, ◌≡◌, refl, ◌∙◌, Bool, true, false, Option, none, some, List, [], ◌∷◌, ◌++◌, ◌&&◌, ◌||◌,
  not, if◌then◌else◌, ◌==◌, eq_iff, eq_refl, arith, ◌↔◌, Bool-cases, inl, inr, Option-cases,
}
use krewhub.Prelude.Table.{dict_get}
use krewhub.GraphSandbox.Structure.{
  GraphPath, Topology, mem, is_internal, hop_to, hop, arrive, resolve_user_destinations, pair_eq,
  mem_pair, add_edges, edges_from, user_steps, destination_of_path, extract_graph_structure,
}
use krewhub.GraphSandbox.Structure.Walks.{Leads, direct, via, IsIn}
use krewhub.GraphSandbox.Structure.Exact.{resolve_user_destinations-exact}

mem_pair-snoc :
    (p q : String × String) (ps : List (String × String))
    → mem_pair p (ps ++ q ∷ []) ≡ (mem_pair p ps || pair_eq q p)
mem_pair-snoc p q [] = ground arith
mem_pair-snoc p q (r ∷ ps) = ground (arith, mem_pair-snoc p q ps)

-- A test between a pair and the one at hand.
pair_eq-mem :
    (src dst a b : String) (ps : List (String × String))
    → (src == a) ≡ true
    → (dst == b) ≡ true
    → mem_pair (src, dst) ps ≡ mem_pair (a, b) ps
pair_eq-mem src dst a b ps p q = rw ((eq_iff src a).0 p) (rw ((eq_iff dst b).0 q) refl)

mem_eq : (dst b : String) (ids : List String) → (dst == b) ≡ true → mem dst ids ≡ mem b ids
mem_eq dst b ids q = rw ((eq_iff dst b).0 q) refl

mem_pair-if :
    (c : Bool) (p q : String × String) (ps : List (String × String))
    → mem_pair p (if c then ps ++ q ∷ [] else ps)
      ≡ (if c then mem_pair p ps || pair_eq q p else mem_pair p ps)
mem_pair-if true p q ps = mem_pair-snoc p q ps
mem_pair-if false p q ps = refl

added :
    (m mo s t u ub mb : Bool)
    → (s ≡ true → t ≡ true → mo ≡ m)
    → (t ≡ true → u ≡ ub)
    → ((if u && not mo then m || (s && t) else m) || (s && mb && ub))
      ≡ (m || (s && (t || mb) && ub))
added m mo false t u ub mb h k = ground arith
added true mo true t u ub mb h k = ground arith
added false mo true false u ub mb h k = ground arith
added false mo true true u ub mb h k = rw (h refl refl) (rw (k refl) (ground arith))

add_edges-mem :
    (users : List String) (src : String) (dsts : List String) (edges : List (String × String))
    (a b : String)
    → mem_pair (a, b) (add_edges users src dsts edges)
      ≡ (mem_pair (a, b) edges || ((src == a) && mem b dsts && mem b users))
unfolding add_edges
add_edges-mem users src [] edges a b = ground arith
add_edges-mem users src (dst ∷ dsts) edges a b =
    let fresh = mem dst users && not (mem_pair (src, dst) edges) in
    add_edges-mem users src dsts (if fresh then edges ++ (src, dst) ∷ [] else edges) a b
    ∙ rw (mem_pair-if fresh (a, b) (src, dst) edges) (
        added (mem_pair (a, b) edges) (mem_pair (src, dst) edges) (src == a) (dst == b)
          (mem dst users) (mem b users) (mem b dsts) (pair_eq-mem src dst a b edges)
          (mem_eq dst b users))

guarded : (m s x y u : Bool) → (s ≡ true → x ≡ y) → (m || (s && x && u)) ≡ (m || (s && y && u))
guarded m false x y u h = refl
guarded m true x y u h = rw (h refl) refl

joined : (m s x u r : Bool) → ((m || (s && x && u)) || (r && x && u)) ≡ (m || ((s || r) && x && u))
joined true s x u r = refl
joined false true x u r = ground arith
joined false false x u r = refl

edges_from-mem :
    (g : Topology) (users srcs : List String) (edges : List (String × String)) (a b : String)
    → mem_pair (a, b) (edges_from g users srcs edges) ≡ (
        mem_pair (a, b) edges
        || (mem a srcs && mem b (resolve_user_destinations g a) && mem b users))
unfolding edges_from
edges_from-mem g users [] edges a b = ground arith
edges_from-mem g users (src ∷ srcs) edges a b =
    let m = mem_pair (a, b) edges in
    let x = mem b (resolve_user_destinations g a) in
    let u = mem b users in
    let one : mem_pair (a, b) (add_edges users src (resolve_user_destinations g src) edges)
        ≡ (m || ((src == a) && x && u)) =
      add_edges-mem users src (resolve_user_destinations g src) edges a b
      ∙ guarded m (src == a) (mem b (resolve_user_destinations g src)) x u
          (λ q. rw ((eq_iff src a).0 q) refl) in
    edges_from-mem g users srcs (add_edges users src (resolve_user_destinations g src) edges) a b
    ∙ rw one (joined m (src == a) x u (mem a srcs))

-- No pair stands twice.
abbrev pub AreDistinct : List (String × String) → Type 0
AreDistinct [] = Unit
AreDistinct (p ∷ ps) = (mem_pair p ps ≡ false) × AreDistinct ps

AreDistinct-snoc :
    (ps : List (String × String)) (q : String × String)
    → AreDistinct ps
    → mem_pair q ps ≡ false
    → AreDistinct (ps ++ q ∷ [])
AreDistinct-snoc [] q d new = (refl, tt)
AreDistinct-snoc (p ∷ ps) q d new =
    let p_q : pair_eq q p ≡ false =
      ground (arith, eq_iff p.0 q.0, eq_iff p.1 q.1, eq_iff q.0 p.0, eq_iff q.1 p.1) in
    (rw (mem_pair-snoc p q ps) (rw d.0 p_q), AreDistinct-snoc ps q d.1 (ground arith))

AreDistinct-add :
    (m u : Bool) (ps : List (String × String)) (q : String × String)
    → mem_pair q ps ≡ m
    → AreDistinct ps
    → AreDistinct (if u && not m then ps ++ q ∷ [] else ps)
AreDistinct-add true true ps q e d = d
AreDistinct-add false true ps q e d = AreDistinct-snoc ps q d e
AreDistinct-add m false ps q e d = d

AreDistinct-add_edges :
    (users : List String) (src : String) (dsts : List String) (edges : List (String × String))
    → AreDistinct edges
    → AreDistinct (add_edges users src dsts edges)
unfolding add_edges
AreDistinct-add_edges users src [] edges d = d
AreDistinct-add_edges users src (dst ∷ dsts) edges d =
    AreDistinct-add_edges users src dsts _
      (AreDistinct-add (mem_pair (src, dst) edges) (mem dst users) edges (src, dst) refl d)

AreDistinct-edges_from :
    (g : Topology) (users srcs : List String) (edges : List (String × String))
    → AreDistinct edges
    → AreDistinct (edges_from g users srcs edges)
unfolding edges_from
AreDistinct-edges_from g users [] edges d = d
AreDistinct-edges_from g users (src ∷ srcs) edges d =
    AreDistinct-edges_from g users srcs _
      (AreDistinct-add_edges users src (resolve_user_destinations g src) edges d)

-- What a path arrives at is a step of the graph.
mem-user_steps :
    (nodes : List (String × String)) (d kind : String)
    → dict_get d nodes ≡ some kind
    → is_internal d kind ≡ false
    → IsIn d (user_steps nodes)
unfolding user_steps
mem-user_steps [] d kind e f = cc
mem-user_steps ((name, k) ∷ nodes) d kind e f = elim (Bool-cases (name == d)) [
  | inl q ↦
      let n : name ≡ d = (eq_iff name d).0 q in
      let t : k ≡ kind = ground arith in rw n (rw t (rw f (ground (arith, eq_refl d))))
  | inr q ↦ let more = mem-user_steps nodes d kind (rw q at e) f in ground arith
]

hop_to-arrive :
    (g : Topology) (o : Option String) (d : String)
    → hop_to g o ≡ arrive d
    → IsIn d (user_steps g.nodes)
hop_to-arrive g none d h = cc
hop_to-arrive g (some dest) d h = elim (Option-cases (dict_get dest g.nodes)) [
  | inl e ↦ absurd (ground arith)
  | inr (kind, e) ↦ elim (Bool-cases (is_internal dest kind)) [
    | inl i ↦ absurd (ground arith)
    | inr i ↦
        let same : dest ≡ d = ground arith in
        subst (λ x. IsIn x (user_steps g.nodes)) same (mem-user_steps g.nodes dest kind e i)
  ]
]

Leads-step : (g : Topology) (s d : String) → Leads g s d → IsIn d (user_steps g.nodes)
unfolding hop destination_of_path
Leads-step g s d (direct p m e) = hop_to-arrive g (destination_of_path p) d e
Leads-step g s d (via {m = j} p m e more) = Leads-step g j d more

conj_true : (a b c : Bool) → (a && b && c) ≡ true → (a ≡ true) × (b ≡ true) × (c ≡ true)
conj_true a b c h = ground arith

module _ (arrange : List String → List String) (nodes : List (String × String))
    (edges_by_source : List (String × List GraphPath)) where
  abbrev pub topology : Topology
  topology = record { nodes = nodes; edges_by_source = edges_by_source }

  abbrev pub shown : List String × List (String × String)
  shown =
      extract_graph_structure arrange
        (record { nodes = some nodes; edges_by_source = some edges_by_source })

  -- Of a graph with both dicts, where the order of a set keeps its members, the edges that are
  -- shown have no pair twice, and a pair of names is an edge exactly where both are steps that
  -- are shown and the paths of the first lead to the second, straight or through scaffolding.
  pub extract_graph_structure-exact :
      (a b : String)
      → ((ids : List String) (id : String) → mem id (arrange ids) ≡ mem id ids)
      → AreDistinct shown.1
        × ((mem_pair (a, b) shown.1 ≡ true)
            ↔ (IsIn a shown.0 × IsIn b shown.0 × Leads topology a b))
  unfolding extract_graph_structure
  extract_graph_structure-exact a b same =
      let users = user_steps nodes in
      let reached = resolve_user_destinations-exact topology a b in
      (
        AreDistinct-edges_from topology users (arrange users) [] tt,
        rw (edges_from-mem topology users (arrange users) [] a b) (
            rw (same users a) (
              (λ h.
                  let (s, r, u) =
                    conj_true (mem a users) (mem b (resolve_user_destinations topology a))
                      (mem b users) h in
                  (s, u, reached.0 r)),
              (λ h. rw h.0 (rw (reached.1 h.2) h.1)),
            )),
      )
