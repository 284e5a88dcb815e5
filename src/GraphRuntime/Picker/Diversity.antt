-- ===== src/GraphRuntime/Picker/Diversity.antt =====
-- When _pick_with_diversity of src/krewhub/services/graph_runtime/cycle.py asks an agent again.
use krewhub.Prelude.{
  String, ◌≡◌, refl, Bool, true, false, Option, none, some, List, [], ◌∷◌, ◌++◌, ◌&&◌, ◌||◌, not,
  All, arith,
}
use krewhub.Models.{AgentPresence}
use krewhub.GraphRuntime.Picker.{
  mem, is_reachable, is_given, is_eligible, pick_agent_for_kind, or_pick, pick_with_diversity,
}
use krewhub.GraphRuntime.Picker.Best.{IsBest, pick_agent_for_kind-IsBest}

mem-append : (x : String) (xs ys : List String) → mem x (xs ++ ys) ≡ (mem x xs || mem x ys)
mem-append x [] ys = refl
mem-append x (y ∷ xs) ys = ground (arith, mem-append x xs ys)

-- Every agent that could be asked is among the ids.
abbrev pub AllAmong : List String → List AgentPresence → Type 0
AllAmong ids agents = All (λ b. is_eligible [] b ≡ true → mem b.agent_id ids ≡ true) agents

excluded_among : (r g m : Bool) → (r && g && not m) ≡ false → (r && g && true) ≡ true → m ≡ true
excluded_among r g m h k = ground arith

AllAmong-of_none :
    (ids : List String) (agents : List AgentPresence)
    → All (λ b. is_eligible ids b ≡ false) agents
    → AllAmong ids agents
AllAmong-of_none ids [] h = tt
AllAmong-of_none ids (b ∷ agents) h = (
  excluded_among (is_reachable b.status) (is_given b.endpoint_url) (mem b.agent_id ids) h.0,
  AllAmong-of_none ids agents h.1,
)

eligible-fresh :
    (ids : List String) (a : AgentPresence) → is_eligible ids a ≡ true → mem a.agent_id ids ≡ false
eligible-fresh ids a h =
    fresh_of (is_reachable a.status) (is_given a.endpoint_url) (mem a.agent_id ids) h
  where
    fresh_of : (r g m : Bool) → (r && g && not m) ≡ true → m ≡ false
    fresh_of r g m h = ground arith

-- What the choice says of the agents, by how it fell out.
abbrev pub IsDiverse :
    List AgentPresence → List String → List String → Option AgentPresence → Type 0
IsDiverse agents tried used none = All (λ b. is_eligible [] b ≡ false) agents
IsDiverse agents tried used (some a) =
    (is_eligible [] a ≡ true)
    × (mem a.agent_id tried ≡ true → AllAmong tried agents)
    × (mem a.agent_id used ≡ true → AllAmong (tried ++ used) agents)

still_eligible :
    (ids : List String) (a : AgentPresence) → is_eligible ids a ≡ true → is_eligible [] a ≡ true
still_eligible ids a h =
    weaker (is_reachable a.status) (is_given a.endpoint_url) (mem a.agent_id ids) h
  where
    weaker : (r g m : Bool) → (r && g && not m) ≡ true → (r && g && true) ≡ true
    weaker r g m h = ground arith

module _ (lower : String → String) (text_le : String → String → Bool)
    (text_total : (s t : String) → text_le s t ≡ false → text_le t s ≡ true)
    (text_trans : (s t u : String) → text_le s t ≡ true → text_le t u ≡ true → text_le s u ≡ true)
    (agents : List AgentPresence) (kind : String) (tried used : List String) where
  tiers :
      (o1 o2 o3 : Option AgentPresence)
      → IsBest lower text_le text_total text_trans agents kind (tried ++ used) o1
      → IsBest lower text_le text_total text_trans agents kind tried o2
      → IsBest lower text_le text_total text_trans agents kind [] o3
      → IsDiverse agents tried used (or_pick o1 (or_pick o2 o3))
  tiers (some a) o2 o3 b1 b2 b3 =
      let new = eligible-fresh (tried ++ used) a b1.1 in
      let split = mem-append a.agent_id tried used in
      (
        still_eligible (tried ++ used) a b1.1,
        (λ h. absurd (ground arith)),
        (λ h. absurd (ground arith)),
      )
  tiers none (some a) o3 b1 b2 b3 =
      let new = eligible-fresh tried a b2.1 in
      (
        still_eligible tried a b2.1,
        (λ h. absurd (cc)),
        (λ h. AllAmong-of_none (tried ++ used) agents b1),
      )
  tiers none none (some a) b1 b2 b3 = (
    b3.1,
    (λ h. AllAmong-of_none tried agents b2),
    (λ h. AllAmong-of_none (tried ++ used) agents b1),
  )
  tiers none none none b1 b2 b3 = b3

  -- Where the order of texts is total and transitive, the agent that is picked can be asked; it
  -- is one that the cycle has tried only where all that can be asked have been tried, and one
  -- that the bundle has used only where all that can be asked have been tried or used; none is
  -- picked only where no agent can be asked.
  pub pick_with_diversity-IsDiverse :
      IsDiverse agents tried used (pick_with_diversity lower text_le agents kind tried used)
  unfolding pick_with_diversity
  pick_with_diversity-IsDiverse =
      let best = pick_agent_for_kind-IsBest lower text_le text_total text_trans agents kind in
      tiers (pick_agent_for_kind lower text_le agents kind (tried ++ used))
        (pick_agent_for_kind lower text_le agents kind tried)
        (pick_agent_for_kind lower text_le agents kind []) (best (tried ++ used)) (best tried)
        (best [])
