-- ===== src/GraphRuntime/Cycle.antt =====
-- src/krewhub/services/graph_runtime/cycle.py: dispatch_cycle, which has the work of a graph's step
-- done by one agent after another, with the records of state.py.
pub mod Records
pub mod Attempts
pub mod Dispatch
use Prim.Native.String.{◌++◌ as append}
use krewhub.Prelude.{
  ℕ, zero, suc, ◌+◌, String, Bool, true, false, Option, none, some, List, [], ◌∷◌, length,
  if◌then◌else◌, ◌==◌,
}
use krewhub.Prelude.Table.{dict_get}
use krewhub.Models.{Task, AgentPresence, Timestamp}
use krewhub.Models.Status.{TaskStatus, task_status_value, is_active, claimed, modified}
use krewhub.Db.{Db, Act, Outcome, ok, err, publish}
use krewhub.Db.Tasks
use krewhub.Watch.Channels.{Resource}
use krewhub.GraphRuntime.Polling.{
  Look, status_eq, Waited, ready, timed_out, dependency_failed, not_found, wait_for_dependencies,
  Polled, terminal, poll_timed_out, disappeared, wait_for_task_terminal,
}
use krewhub.GraphRuntime.Picker.{pick_with_diversity}
use Records.{
  AttemptRecord, OrchestratorState, Run, append_attempt, record_success, record_failure,
  collect_facts_and_code_refs,
}

-- What the code meets outside of it. The rows that a wait reads, and what others write meanwhile;
-- for each attempt the readings of the agents, the first one and those of the wait for an agent,
-- and whether a gateway accepts; how the library prints numbers and durations; Python's texts.
pub record Surroundings : Type 0 where
  pub lower : String → String
  pub text_le : String → String → Bool
  pub print : ℕ → String
  pub quote : String → String
  pub rounds : ℕ
  pub task_timeout : String
  pub dep_look : Look
  pub dep_after : Db → Db
  pub flight_look : Look
  pub flight_after : Db → Db
  pub agents : ℕ → List (List AgentPresence)
  pub accepts : ℕ → AgentPresence → String → Bool
  pub look : ℕ → Look
  pub after : ℕ → Db → Db
  pub now : Timestamp

-- The arguments of dispatch_cycle, with what it takes from OrchestratorDeps.
pub record Step : Type 0 where
  pub node_id : String
  pub task_kind : String
  pub instruction : String
  pub max_iterations : ℕ
  pub accept_when : TaskStatus
  pub task_id_map : List (String × String)
  pub upstream_context : List String → String

-- "done: <agent>", "error: <summary>", or the ValueError of a task that vanished.
pub data CycleEnd : Type 0 where
  done_by : String → CycleEnd
  error_of : String → CycleEnd
  crashed : CycleEnd

abbrev pub or_text : Option String → String → String
or_text none other = other
or_text (some s) other = if s == "" then other else s

unfoldable pub refine : String → String → String
refine original failure_summary = append original (
    append "\n\nThe previous attempt failed: "
      (append failure_summary "\nPlease address the failure and try again."))

abbrev pub part : String → String → String
part label text = if text == "" then "" else append "\n\n" (append label text)

unfoldable pub build_prompt : (ℕ → String) → String → String → String → ℕ → String → String
build_prompt print base instruction last_summary attempt upstream_context = append "[Attempt " (
    append (print attempt) (
      append "] " (
        append instruction (
          append (part "" upstream_context)
            (append "\n\nContext: " (append base (part "Prior failure: " last_summary)))))))

abbrev pub claim_patch : String → Timestamp → Tasks.TaskPatch
claim_patch agent_id now = record Tasks.no_patch {
  status = some claimed;
  assigned_agent_id = some agent_id;
  claimed_by_agent_id = some agent_id;
  claimed_at = some now;
}

abbrev pub publish_updated : String → Outcome (Option Task) → Timestamp → Db → Db
publish_updated task_id (ok (some updated)) now db =
    publish "task" task_id modified (Resource.task updated) none now db
publish_updated task_id (ok none) now db = db
publish_updated task_id (err e) now db = db

unfoldable pub mark_claimed : String → AgentPresence → Timestamp → Db → Db
mark_claimed task_id agent now db =
    let (updated, db') = Tasks.update task_id (claim_patch agent.agent_id now) now db in
    publish_updated task_id updated now db'
