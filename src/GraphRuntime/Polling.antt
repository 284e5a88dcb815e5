-- ===== src/GraphRuntime/Polling.antt =====
-- src/krewhub/services/graph_runtime/polling.py: waiting for tasks by reading their rows again and
-- again. A round of reads has a number, and the limit of time is a number of rounds. What a read
-- finds is a function of the round and the id, since others write the rows meanwhile.
pub mod Settling
use krewhub.Prelude.{
  ℕ, zero, suc, String, Bool, true, false, Option, none, some, List, [], ◌∷◌, not, filter,
  if◌then◌else◌, ◌==◌,
}
use krewhub.Models.{Task}
use krewhub.Models.Status.{TaskStatus, task_status_value, is_terminal}

abbrev pub Look : Type 0
Look = ℕ → String → Option Task

abbrev pub status_eq : TaskStatus → TaskStatus → Bool
status_eq a b = task_status_value a == task_status_value b

-- What the loop over the dependencies makes of one row.
pub data Standing : Type 0 where
  missing : Standing
  satisfied : Standing
  -- its status and its blocked_reason
  failed : TaskStatus → Option String → Standing
  waiting : Standing

abbrev pub standing : TaskStatus → Option Task → Standing
standing accept_when none = missing
standing accept_when (some dep) =
    if status_eq dep.status accept_when
    then satisfied
    else if is_terminal dep.status
    then failed dep.status dep.blocked_reason
    else waiting

-- How wait_for_dependencies ends: a return, asyncio.TimeoutError, DependencyFailedError, ValueError.
pub data Waited : Type 0 where
  ready : Waited
  timed_out : Waited
  dependency_failed : String → TaskStatus → Option String → Waited
  not_found : String → Waited

-- A round over the pending ids gives those of the next round, or ends the wait.
pub data Round : Type 0 where
  next : List String → Round
  stop : Waited → Round

abbrev pub keep : String → Round → Round
keep dep_id (next ids) = next (dep_id ∷ ids)
keep dep_id (stop w) = stop w

abbrev pub take_dep : Standing → String → Round → Round
take_dep missing dep_id others = stop (not_found dep_id)
take_dep satisfied dep_id others = others
take_dep (failed status reason) dep_id others = stop (dependency_failed dep_id status reason)
take_dep waiting dep_id others = keep dep_id others

unfoldable pub round : TaskStatus → Look → ℕ → List String → Round
round accept_when look k [] = next []
round accept_when look k (dep_id ∷ pending) =
    take_dep (standing accept_when (look k dep_id)) dep_id (round accept_when look k pending)

-- The loop, with the rounds that are left.
unfoldable pub wait_rounds : TaskStatus → Look → ℕ → ℕ → List String → Waited
wait_rounds accept_when look zero k pending = timed_out
wait_rounds accept_when look (suc rounds) k pending = elim (round accept_when look k pending) [
  | stop w ↦ w
  | next [] ↦ ready
  | next (dep_id ∷ ids) ↦ wait_rounds accept_when look rounds (suc k) (dep_id ∷ ids)
]

abbrev pub wait_pending : TaskStatus → Look → ℕ → List String → Waited
wait_pending accept_when look rounds [] = ready
wait_pending accept_when look rounds (dep_id ∷ ids) =
    wait_rounds accept_when look rounds 0 (dep_id ∷ ids)

-- The empty ids are left out first.
abbrev pub named_deps : List String → List String
named_deps dep_task_ids = filter (λ tid. not (tid == "")) dep_task_ids

unfoldable pub wait_for_dependencies : TaskStatus → Look → ℕ → List String → Waited
unfolding wait_rounds
wait_for_dependencies accept_when look rounds dep_task_ids =
    wait_pending accept_when look rounds (named_deps dep_task_ids)

-- How wait_for_task_terminal ends.
pub data Polled : Type 0 where
  terminal : Task → Polled
  poll_timed_out : Polled
  disappeared : Polled

unfoldable pub wait_terminal : (ℕ → Option Task) → ℕ → ℕ → Polled
wait_terminal look zero k = poll_timed_out
wait_terminal look (suc rounds) k = elim (look k) [
  | none ↦ disappeared
  | some task ↦ elim (is_terminal task.status) [
    | true ↦ terminal task
    | false ↦ wait_terminal look rounds (suc k)
  ]
]

unfoldable pub wait_for_task_terminal : Look → ℕ → String → Polled
unfolding wait_terminal
wait_for_task_terminal look rounds task_id = wait_terminal (λ k. look k task_id) rounds 0
