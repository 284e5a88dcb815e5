-- ===== src/GraphSandbox/Structure/Exact.antt =====
-- The steps that src/krewhub/services/graph_sandbox/renderer.py finds from a node are exactly those
-- that its paths lead to.
use mathlib.Core.Path.{subst}
use mathlib.Core.List.{Memᴰ}
use krewhub.Prelude.{
  All-of, All-at, ℕ, zero, suc, String, ◌≡◌, refl, true, Option, some, List, [], ◌∷◌, ◌++◌, length,
  ◌==◌, eq_iff, arith, All, ◌↔◌, Bool-cases, inl, inr, Option-cases,
}
use krewhub.GraphSandbox.Structure.{
  GraphPath, Topology, mem, hop, Hop, skip, through, arrive, paths_of, Walk, no_walk, take_hop,
  follow, walk, resolve_user_destinations,
}
use krewhub.GraphSandbox.Structure.Walks.{
  Leads, direct, via, IsIn, Followed, Done, FollowEnds, mem-snoc, walk-Ends, follow_ends, unseen-le,
}

-- No result but what P holds of.
abbrev Only : (String → Type 0) → Walk → Type 0
Only P w = (d : String) → IsIn d w.results → P d

abbrev Keeps : (String → Walk → Option Walk) → Topology → (String → Type 0) → Type 0
Keeps go g P =
    (id : String) (w w' : Walk)
    → ((d : String) → Leads g id d → P d)
    → Only P w
    → go id w ≡ some w'
    → Only P w'

-- What a hop points to is P.
abbrev Points : Topology → (String → Type 0) → Hop → Type 0
Points g P skip = Unit
Points g P (through m) = (d : String) → Leads g m d → P d
Points g P (arrive d) = P d

Only-snoc :
    (P : String → Type 0) (d : String) (w : Walk)
    → P d
    → Only P w
    → Only P (record w { results = w.results ++ d ∷ [] })
Only-snoc P d w p only j h = elim (Bool-cases (d == j)) [
  | inl q ↦ subst P ((eq_iff d j).0 q) p
  | inr q ↦ only j (ground (arith, mem-snoc j d w.results))
]

module _ (go : String → Walk → Option Walk) (g : Topology) (P : String → Type 0)
    (keeps : Keeps go g P) where
  take_hop_keeps :
      (h : Hop) (others : Walk → Option Walk) (w w' : Walk)
      → Points g P h
      → ((w1 : Walk) → Only P w1 → others w1 ≡ some w' → Only P w')
      → Only P w
      → take_hop go others h w ≡ some w'
      → Only P w'
  take_hop_keeps skip others w w' pts rest only e = rest w only e
  take_hop_keeps (arrive d) others w w' pts rest only e =
      rest (record w { results = w.results ++ d ∷ [] }) (Only-snoc P d w pts only) e
  take_hop_keeps (through m) others w w' pts rest only e = elim (Option-cases (go m w)) [
    | inl q ↦ absurd (cc (rw q at e))
    | inr (w1, q) ↦ rest w1 (keeps m w w1 pts only q) (rw q at e)
  ]

  follow_keeps :
      (ps : List GraphPath) (w w' : Walk)
      → All (λ p. Points g P (hop g p)) ps
      → Only P w
      → follow go g ps w ≡ some w'
      → Only P w'
  unfolding follow
  follow_keeps [] w w' pts only e = λ d h. only d (ground arith)
  follow_keeps (p ∷ ps) w w' pts only e =
      take_hop_keeps (hop g p) (follow go g ps) w w' pts.0 (λ w1. follow_keeps ps w1 w' pts.1) only
        e

Points-hop :
    (g : Topology) (P : String → Type 0) (id : String) (p : GraphPath) (h : Hop)
    → ((d : String) → Leads g id d → P d)
    → Memᴰ p (paths_of g id)
    → hop g p ≡ h
    → Points g P h
Points-hop g P id p skip lead m e = tt
Points-hop g P id p (through j) lead m e = λ d more. lead d (via p m e more)
Points-hop g P id p (arrive d) lead m e = lead d (direct p m e)

Points-paths :
    (g : Topology) (P : String → Type 0) (id : String)
    → ((d : String) → Leads g id d → P d)
    → All (λ p. Points g P (hop g p)) (paths_of g id)
Points-paths g P id lead =
    All-of (λ p. Points g P (hop g p)) (paths_of g id)
      (λ p m. Points-hop g P id p (hop g p) lead m refl)

walk_keeps : (g : Topology) (P : String → Type 0) (n : ℕ) → Keeps (walk n g) g P
unfolding walk
walk_keeps g P zero id w w' lead only e = absurd (cc)
walk_keeps g P (suc n) id w w' lead only e = elim (Bool-cases (mem id w.visited)) [
  | inl q ↦ λ d h. only d (ground (arith, rw (q, walk) at e))
  | inr q ↦
      follow_keeps (walk n g) g P (walk_keeps g P n) (paths_of g id)
        (record w { visited = id ∷ w.visited }) w' (Points-paths g P id lead) only
        (rw (q, walk) at e)
]

-- Where all that was visited is done, what a visited node leads to is a result.
Leads-visited :
    (g : Topology) (w : Walk)
    → ((id : String) → IsIn id w.visited → Done g id w)
    → (s d : String) → Done g s w
    → Leads g s d
    → IsIn d w.results
Leads-visited g w closed s d done (direct p m e) =
    let f = All-at (λ p. Followed (hop g p) w) (paths_of g s) p done m in
    subst (λ h. Followed h w) e f
Leads-visited g w closed s d done (via {m = j} p m e more) =
    let f = All-at (λ p. Followed (hop g p) w) (paths_of g s) p done m in
    Leads-visited g w closed j d (closed j (subst (λ h. Followed h w) e f)) more

resolve-ends :
    (g : Topology) (s : String)
    → FollowEnds g
        (follow (walk (suc (length g.nodes)) g) g (paths_of g s) no_walk)
        (paths_of g s)
        no_walk
resolve-ends g s =
    follow_ends (walk (suc (length g.nodes)) g) g (suc (length g.nodes))
      (walk-Ends g (suc (length g.nodes))) (paths_of g s) no_walk
      (omega (arith, unseen-le g.nodes []))

-- The walk returns, within its fuel, just the steps that the paths of the node lead to.
pub resolve_user_destinations-exact :
    (g : Topology) (source_id d : String)
    → (mem d (resolve_user_destinations g source_id) ≡ true) ↔ Leads g source_id d
unfolding resolve_user_destinations
resolve_user_destinations-exact g s d =
    let (w, e, grows, done, fin) = resolve-ends g s in
    let sound =
      follow_keeps (walk (suc (length g.nodes)) g) g (Leads g s)
        (walk_keeps g (Leads g s) (suc (length g.nodes))) (paths_of g s) no_walk w
        (Points-paths g (Leads g s) s (λ x l. l)) (λ x h. absurd (cc)) e in
    rw e (λ h. sound d h, λ l. Leads-visited g w (λ id h. fin id refl h) s d done l)
