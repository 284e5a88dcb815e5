-- ===== src/GraphRuntime/Cycle/Dispatch.antt =====
-- dispatch_cycle of src/krewhub/services/graph_runtime/cycle.py: what comes before its loop, and the
-- whole.
pub mod Recorded
pub mod Honest
use Prim.Native.String.{◌++◌ as append}
use krewhub.Prelude.{
  ℕ, zero, suc, String, Bool, true, false, Option, none, some, List, [], ◌∷◌, length, if◌then◌else◌,
  ◌==◌,
}
use krewhub.Prelude.Table.{dict_get}
use krewhub.Models.{Task}
use krewhub.Models.Status.{TaskStatus, task_status_value, is_active}
use krewhub.Db.Tasks
use krewhub.GraphRuntime.Polling.{
  status_eq, Waited, ready, timed_out, dependency_failed, not_found, wait_for_dependencies, Polled,
  terminal, poll_timed_out, disappeared, wait_for_task_terminal,
}
use krewhub.GraphRuntime.Cycle.{
  Surroundings, Step, CycleEnd, done_by, error_of, crashed, or_text, refine,
}
use krewhub.GraphRuntime.Cycle.Records.{OrchestratorState, Run, record_failure}
use krewhub.GraphRuntime.Cycle.Attempts.{Loop, on_state, note, succeed, run_attempts}

module _ (env : Surroundings) (step : Step) where
  abbrev pub fresh_loop : Loop
  fresh_loop = record { tried = []; last_summary = ""; refined_instruction = step.instruction }

  abbrev pub loop_after : String → Loop
  loop_after last_summary = record {
    tried = [];
    last_summary = last_summary;
    refined_instruction = refine step.instruction last_summary;
  }

  -- return _record_failure(...)
  unfoldable pub fail : String → ℕ → String → String → Run → CycleEnd × Run
  fail task_id iteration status summary run = (
    error_of summary,
    on_state env step task_id (record_failure step.node_id task_id iteration status summary env.now)
        run,
  )

  -- The task is done already.
  unfoldable pub adopt : String → Option String → String → Run → CycleEnd × Run
  adopt task_id agent_id summary run = (
    done_by (or_text agent_id "cached"),
    succeed env step task_id (or_text agent_id "") summary run,
  )

  unfoldable pub enter_loop : Task → Loop → Run → CycleEnd × Run
  enter_loop task loop run =
      run_attempts env step task.id step.max_iterations 1 loop
        (step.upstream_context task.depends_on_task_ids) run

  -- The wait for the run that had claimed the task before.
  unfoldable pub take_flight : Task → Polled → Run → CycleEnd × Run
  unfolding enter_loop
  take_flight task poll_timed_out run =
      let owner = or_text task.claimed_by_agent_id "" in
      enter_loop task
        (loop_after
          (append "timeout waiting for " (or_text task.claimed_by_agent_id "existing run")))
        (note env step task.id 0 owner "timeout"
          (append "already in-flight on entry; timed out after "
            (append env.task_timeout "s waiting for terminal"))
          run)
  take_flight task disappeared run = (crashed, run)
  take_flight task (terminal final) run =
      let owner = or_text task.claimed_by_agent_id "" in
      let reason =
        or_text final.blocked_reason (append "status=" (task_status_value final.status)) in
      let ended =
        note env step task.id 0 owner (task_status_value final.status)
          (append "in-flight on entry, ended with " reason) run in
      let completed =
        note env step task.id 0 owner "done"
          (append "task was already in-flight on entry; "
            (append (or_text task.claimed_by_agent_id "existing run") " completed it"))
          run in
      if status_eq final.status step.accept_when
      then (
        done_by (or_text task.claimed_by_agent_id "adopted"),
        succeed env step task.id owner
            (append "adopted existing run by " (or_text task.claimed_by_agent_id "unknown"))
            completed,
      )
      else enter_loop task (loop_after reason)
          (record ended { db = (Tasks.reopen_for_rerun task.id env.now ended.db).1 })

  -- From the in-flight guard on.
  unfoldable pub work_on : Task → Run → CycleEnd × Run
  unfolding take_flight
  work_on task run =
      if is_active task.status
      then take_flight task (wait_for_task_terminal env.flight_look env.rounds task.id)
          (record run { db = env.flight_after run.db })
      else enter_loop task fresh_loop run

  -- The row as it is read again after the wait; the old one where it is gone.
  unfoldable pub after_wait : Task → Option Task → Run → CycleEnd × Run
  unfolding work_on
  after_wait task none run = work_on task run
  after_wait task (some refreshed) run =
      if status_eq refreshed.status step.accept_when
      then adopt task.id refreshed.claimed_by_agent_id
          "already complete (won race with sibling fire)" run
      else work_on refreshed run

  unfoldable pub take_waited : Task → Waited → Run → CycleEnd × Run
  unfolding after_wait
  take_waited task ready run = after_wait task (Tasks.get task.id run.db) run
  take_waited task timed_out run =
      fail task.id 0 "dep_timeout"
        (append "timed out after " (
          append env.task_timeout (
            append "s waiting for "
              (append (env.print (length task.depends_on_task_ids)) " upstream dependency(ies)"))))
        run
  take_waited task (dependency_failed dep status reason) run =
      fail task.id 0 "dep_failed"
        (append "upstream failure: dependency " (
          append dep (
            append " ended with "
              (append (task_status_value status) (append ": " (or_text reason "no reason"))))))
        run
  take_waited task (not_found dep) run =
      fail task.id 0 "dep_missing"
        (append "dependency lookup failed: dependency " (append dep " not found in db")) run

  -- Without dependencies there is no wait.
  unfoldable pub take_deps : Task → List String → Run → CycleEnd × Run
  unfolding take_waited
  take_deps task [] run = work_on task run
  take_deps task (dep ∷ deps) run =
      take_waited task (wait_for_dependencies step.accept_when env.dep_look env.rounds (dep ∷ deps))
        (record run { db = env.dep_after run.db })

  unfoldable pub take_task : String → Option Task → Run → CycleEnd × Run
  unfolding take_deps
  take_task task_id none run =
      fail task_id 1 "missing_task" (append "task " (append task_id " not found in db")) run
  take_task task_id (some task) run =
      if status_eq task.status step.accept_when
      then adopt task_id task.claimed_by_agent_id "already complete" run
      else take_deps task task.depends_on_task_ids run

  unfoldable pub take_id : String → Run → CycleEnd × Run
  unfolding take_task
  take_id task_id run =
      if task_id == ""
      then fail "" 1 "no_task" (append "no task_id mapped for node " (env.quote step.node_id)) run
      else take_task task_id (Tasks.get task_id run.db) run

  abbrev pub or_empty : Option String → String
  or_empty none = ""
  or_empty (some id) = id

  unfoldable pub dispatch_cycle : Run → CycleEnd × Run
  unfolding take_id
  dispatch_cycle run = take_id (or_empty (dict_get step.node_id step.task_id_map)) run
