-- ===== src/GraphRuntime/Picker.antt =====
-- src/krewhub/services/graph_runtime/agent_picker.py: the choice of an agent, and
-- _pick_with_diversity of cycle.py. Python's lower() and its order of texts are parameters.
pub mod Best
pub mod Diversity
use krewhub.Prelude.{
  ℕ, String, Bool, true, false, Option, none, some, List, [], ◌∷◌, ◌++◌, ◌&&◌, ◌||◌, not, any,
  filter, head?, ltb, if◌then◌else◌, ◌==◌,
}
use krewhub.Models.{AgentPresence}
use krewhub.Models.Status.{AgentStatus, online, offline, busy}

abbrev pub mem : String → List String → Bool
mem id ids = any (λ j. j == id) ids

abbrev pub is_reachable : AgentStatus → Bool
is_reachable online = true
is_reachable busy = true
is_reachable offline = false

-- A text that is there and not empty.
abbrev pub is_given : Option String → Bool
is_given none = false
is_given (some s) = not (s == "")

abbrev pub is_eligible : List String → AgentPresence → Bool
is_eligible excluded agent =
    is_reachable agent.status && is_given agent.endpoint_url && not (mem agent.agent_id excluded)

abbrev pub status_rank : AgentStatus → ℕ
status_rank online = 0
status_rank offline = 1
status_rank busy = 1

-- list.sort, by insertion: items of one rank stay in their order.
module _ {A : Type 0} (le : A → A → Bool) where
  unfoldable pub insert : A → List A → List A
  insert a [] = a ∷ []
  insert a (b ∷ rest) = let more = insert a rest in if le a b then a ∷ b ∷ rest else b ∷ more

  unfoldable pub sort : List A → List A
  unfolding insert
  sort [] = []
  sort (a ∷ rest) = insert a (sort rest)

abbrev pub or_pick : Option AgentPresence → Option AgentPresence → Option AgentPresence
or_pick (some a) later = some a
or_pick none later = later

-- (m, p, s) <= (n, q, t), where `le` says how s compares with t
abbrev pub tuple_le : ℕ → ℕ → ℕ → ℕ → Bool → Bool
tuple_le m n p q le =
    if ltb m n
    then true
    else if ltb n m
    then false
    else if ltb p q
    then true
    else if ltb q p
    then false
    else le

module _ (lower : String → String) (text_le : String → String → Bool) where
  abbrev pub capability_match : String → AgentPresence → ℕ
  capability_match task_kind agent =
      if any (λ cap. lower cap == lower task_kind) agent.capabilities then 0 else 1

  -- The order of the tuples rank_key.
  abbrev pub rank_le : String → AgentPresence → AgentPresence → Bool
  rank_le task_kind a b =
      tuple_le (capability_match task_kind a) (capability_match task_kind b) (status_rank a.status)
        (status_rank b.status) (text_le a.agent_id b.agent_id)

  unfoldable pub pick_agent_for_kind :
      List AgentPresence → String → List String → Option AgentPresence
  pick_agent_for_kind agents task_kind excluded =
      head? (sort (rank_le task_kind) (filter (is_eligible excluded) agents))

  unfoldable pub pick_with_diversity :
      List AgentPresence → String → List String → List String → Option AgentPresence
  pick_with_diversity agents task_kind cycle_tried bundle_used =
      or_pick (pick_agent_for_kind agents task_kind (cycle_tried ++ bundle_used)) (
        or_pick (pick_agent_for_kind agents task_kind cycle_tried)
          (pick_agent_for_kind agents task_kind []))
