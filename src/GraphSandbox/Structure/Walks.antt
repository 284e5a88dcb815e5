-- ===== src/GraphSandbox/Structure/Walks.antt =====
-- The walk of src/krewhub/services/graph_sandbox/renderer.py through the scaffolding ends and finds
-- all that it can reach.
use mathlib.Core.Path.{subst}
use mathlib.Core.List.{Memᴰ}
use krewhub.Prelude.{
  ℕ, zero, suc, ◌≤◌, ◌<◌, String, ◌≡◌, refl, true, false, Option, none, some, List, [], ◌∷◌, ◌++◌,
  ◌||◌, length, if◌then◌else◌, ◌==◌, eq_iff, eq_refl, arith, All, Bool-cases, inl, inr,
  Option-cases,
}
use krewhub.Prelude.Table.{dict_get}
use krewhub.GraphSandbox.Structure.{
  GraphPath, Topology, mem, hop_to, hop, Hop, skip, through, arrive, paths_of, Walk, take_hop,
  destination_of_path, follow, walk,
}

-- From a node of the graph the paths lead to a step, straight or through scaffolding.
pub data Leads (g : Topology) : String → String → Type 0 where
  direct : {s d : String} (p : GraphPath) → Memᴰ p (paths_of g s) → hop g p ≡ arrive d → Leads g s d
  via :
      {s m d : String} (p : GraphPath)
      → Memᴰ p (paths_of g s)
      → hop g p ≡ through m
      → Leads g m d
      → Leads g s d

abbrev pub IsIn : String → List String → Type 0
IsIn id ids = mem id ids ≡ true

-- Nothing is lost.
pub record Grows (w w' : Walk) : Type 0 where
  pub visited : (id : String) → IsIn id w.visited → IsIn id w'.visited
  pub results : (id : String) → IsIn id w.results → IsIn id w'.results

-- What a path points to has been recorded.
abbrev pub Followed : Hop → Walk → Type 0
Followed skip w = Unit
Followed (through m) w = IsIn m w.visited
Followed (arrive d) w = IsIn d w.results

-- A node is done when its paths are followed.
abbrev pub Done : Topology → String → Walk → Type 0
Done g id w = All (λ p. Followed (hop g p) w) (paths_of g id)

-- What is newly visited is done.
abbrev pub Finishes : Topology → Walk → Walk → Type 0
Finishes g w w' = (id : String) → mem id w.visited ≡ false → IsIn id w'.visited → Done g id w'

pub mem-snoc :
    (id x : String) (ids : List String) → mem id (ids ++ x ∷ []) ≡ (mem id ids || (x == id))
mem-snoc id x [] = ground arith
mem-snoc id x (y ∷ ids) = ground (arith, mem-snoc id x ids)

Grows-refl : (w : Walk) → Grows w w
Grows-refl w = record { visited = λ id h. h; results = λ id h. h }

Grows-trans : {a b c : Walk} → Grows a b → Grows b c → Grows a c
Grows-trans p q = record {
  visited = λ id h. q.visited id (p.visited id h);
  results = λ id h. q.results id (p.results id h);
}

Followed-Grows : (h : Hop) {w w' : Walk} → Grows w w' → Followed h w → Followed h w'
Followed-Grows skip g f = tt
Followed-Grows (through m) g f = g.visited m f
Followed-Grows (arrive d) g f = g.results d f

All-Followed-Grows :
    (t : Topology) (ps : List GraphPath) {w w' : Walk}
    → Grows w w'
    → All (λ p. Followed (hop t p) w) ps
    → All (λ p. Followed (hop t p) w') ps
All-Followed-Grows t [] g f = tt
All-Followed-Grows t (p ∷ ps) g f = (Followed-Grows (hop t p) g f.0, All-Followed-Grows t ps g f.1)

-- What is new in one stretch and done at its end stays done.
Finishes-trans :
    (t : Topology) (a b c : Walk) → Grows b c → Finishes t a b → Finishes t b c → Finishes t a c
Finishes-trans t a b c g f h id new old = elim (Bool-cases (mem id b.visited)) [
  | inl e ↦ All-Followed-Grows t (paths_of t id) g (f id new e)
  | inr e ↦ h id e old
]

-- The nodes that are not visited yet, the measure of the walk.
unfoldable pub unseen : List (String × String) → List String → ℕ
unseen [] visited = 0
unseen ((name, kind) ∷ nodes) visited =
    let rest = unseen nodes visited in if mem name visited then rest else suc rest

unseen_mono :
    (nodes : List (String × String)) (v v' : List String)
    → ((id : String) → IsIn id v → IsIn id v')
    → unseen nodes v' ≤ unseen nodes v
unfolding unseen
unseen_mono [] v v' h = omega arith
unseen_mono ((name, kind) ∷ nodes) v v' h = ground (arith, h name, unseen_mono nodes v v' h)

unseen-lt :
    (nodes : List (String × String)) (v : List String) (id kind : String)
    → dict_get id nodes ≡ some kind
    → mem id v ≡ false
    → unseen nodes (id ∷ v) < unseen nodes v
unfolding unseen
unseen-lt [] v id kind e h = cc
unseen-lt ((name, k) ∷ nodes) v id kind e h = ground (
  arith,
  eq_iff name id,
  eq_iff id name,
  unseen-lt nodes v id kind,
  unseen_mono nodes v (id ∷ v) (λ j q. ground arith),
)

pub unseen-le : (nodes : List (String × String)) (v : List String) → unseen nodes v ≤ length nodes
unfolding unseen
unseen-le [] v = omega arith
unseen-le ((name, kind) ∷ nodes) v = ground (arith, unseen-le nodes v)

pub hop_to-through :
    (g : Topology) (o : Option String) (m : String)
    → hop_to g o ≡ through m
    → (kind : String) × (dict_get m g.nodes ≡ some kind)
hop_to-through g none m h = cc
hop_to-through g (some dest) m h = elim (Option-cases (dict_get dest g.nodes)) [
  | inl e ↦ absurd (ground arith)
  | inr (kind, e) ↦ (kind, ground arith)
]

-- A walk that ended, with what it did.
abbrev pub WalkEnds : Topology → Option Walk → String → Walk → Type 0
WalkEnds g r id w = (w' : Walk) × (r ≡ some w') × Grows w w' × IsIn id w'.visited × Finishes g w w'

abbrev pub FollowEnds : Topology → Option Walk → List GraphPath → Walk → Type 0
FollowEnds g r ps w =
    (w' : Walk) × (r ≡ some w') × Grows w w' × All (λ p. Followed (hop g p) w') ps × Finishes g w w'

-- The call of walk ends wherever few enough nodes are unseen.
abbrev pub Ends : (String → Walk → Option Walk) → Topology → ℕ → Type 0
Ends go g n =
    (id kind : String) (w : Walk)
    → dict_get id g.nodes ≡ some kind
    → unseen g.nodes w.visited < n
    → WalkEnds g (go id w) id w

Finishes-same : (g : Topology) (w w' : Walk) → w'.visited ≡ w.visited → Finishes g w w'
Finishes-same g w w' e id new old = absurd (cc)

module _ (go : String → Walk → Option Walk) (g : Topology) (n : ℕ) (ends : Ends go g n) where
  take_hop_ends :
      (h : Hop) (ps : List GraphPath) (others : Walk → Option Walk) (w : Walk)
      → ((m : String) → h ≡ through m → (kind : String) × (dict_get m g.nodes ≡ some kind))
      → ((w1 : Walk) → unseen g.nodes w1.visited < n → FollowEnds g (others w1) ps w1)
      → unseen g.nodes w.visited < n
      → (w' : Walk) × (take_hop go others h w ≡ some w')
        × Grows w w'
        × Followed h w'
        × All (λ p. Followed (hop g p) w') ps
        × Finishes g w w'
  take_hop_ends skip ps others w known rest few =
      let (w', e, grows, all, fin) = rest w few in (w', e, grows, tt, all, fin)
  take_hop_ends (through m) ps others w known rest few =
      let (kind, node) = known m refl in
      let (w1, e1, grows1, seen, fin1) = ends m kind w node few in
      let mono = unseen_mono g.nodes w.visited w1.visited grows1.visited in
      let (w2, e2, grows2, all, fin2) = rest w1 (omega (arith, mono, few)) in
      (
        w2,
        rw e1 e2,
        Grows-trans grows1 grows2,
        grows2.visited m seen,
        all,
        Finishes-trans g w w1 w2 grows2 fin1 fin2,
      )
  take_hop_ends (arrive d) ps others w known rest few =
      let w1 = record w { results = w.results ++ d ∷ [] } in
      let grows1 : Grows w w1 = record {
        visited = λ id h. h;
        results = λ id h. rw (mem-snoc id d w.results) (rw h refl);
      } in
      let (w2, e2, grows2, all, fin2) = rest w1 few in
      let here : IsIn d w1.results = rw (mem-snoc d d w.results) (ground (arith, eq_refl d)) in
      (w2, e2, Grows-trans grows1 grows2, grows2.results d here, all, fin2)

  pub follow_ends :
      (ps : List GraphPath) (w : Walk)
      → unseen g.nodes w.visited < n
      → FollowEnds g (follow go g ps w) ps w
  unfolding follow hop
  follow_ends [] w few = (w, refl, Grows-refl w, tt, Finishes-same g w w refl)
  follow_ends (p ∷ ps) w few =
      let (w', e, grows, done, all, fin) =
        take_hop_ends (hop g p) ps (follow go g ps) w
          (λ m h. hop_to-through g (destination_of_path p) m h) (follow_ends ps) few in
      (w', e, grows, (done, all), fin)

-- The node that a walk visits first is done when its paths are.
Finishes-step :
    (g : Topology) (id : String) (w w0 w' : Walk)
    → w0.visited ≡ id ∷ w.visited
    → Done g id w'
    → Finishes g w0 w'
    → Finishes g w w'
Finishes-step g id w w0 w' same done fin j new old = elim (Bool-cases (id == j)) [
  | inl q ↦ subst (λ x. Done g x w') ((eq_iff id j).0 q) done
  | inr q ↦ fin j (rw same (rw q new)) old
]

-- A walk ends, with enough fuel for the nodes that are unseen.
pub walk-Ends : (g : Topology) (n : ℕ) → Ends (walk n g) g n
unfolding walk
walk-Ends g zero id kind w node few = absurd (omega arith)
walk-Ends g (suc n) id kind w node few = elim (Bool-cases (mem id w.visited)) [
  | inl e ↦ (w, rw (e, walk) refl, Grows-refl w, e, Finishes-same g w w refl)
  | inr e ↦
      let w0 = record w { visited = id ∷ w.visited } in
      let fewer = unseen-lt g.nodes w.visited id kind node e in
      let (w', e', grows, all, fin) =
        follow_ends (walk n g) g n (walk-Ends g n) (paths_of g id) w0 (omega (arith, fewer)) in
      let start : Grows w w0 = record { visited = λ j h. ground arith; results = λ j h. h } in
      let seen : IsIn id w0.visited = ground (arith, eq_refl id) in
      (
        w',
        rw (e, walk) e',
        Grows-trans start grows,
        grows.visited id seen,
        Finishes-step g id w w0 w' refl all fin,
      )
]
