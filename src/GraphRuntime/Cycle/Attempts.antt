-- ===== src/GraphRuntime/Cycle/Attempts.antt =====
-- The retry loop of dispatch_cycle in src/krewhub/services/graph_runtime/cycle.py.
use Prim.Native.String.{◌++◌ as append}
use krewhub.Prelude.{
  ℕ, zero, suc, String, Bool, true, false, Option, none, some, List, [], ◌∷◌, if◌then◌else◌,
}
use krewhub.Models.{Task, AgentPresence}
use krewhub.Models.Status.{task_status_value}
use krewhub.Db.Tasks
use krewhub.GraphRuntime.Polling.{
  status_eq, Polled, terminal, poll_timed_out, disappeared, wait_for_task_terminal,
}
use krewhub.GraphRuntime.Picker.{or_pick, pick_with_diversity}
use krewhub.GraphRuntime.Cycle.{
  Surroundings, Step, CycleEnd, done_by, error_of, crashed, or_text, refine, build_prompt,
  mark_claimed,
}
use krewhub.GraphRuntime.Cycle.Records.{
  AttemptRecord, OrchestratorState, Run, append_attempt, record_success, record_failure,
  collect_facts_and_code_refs,
}

-- The variables of the loop.
pub record Loop : Type 0 where
  pub tried : List String
  pub last_summary : String
  pub refined_instruction : String

-- How an attempt ends: the call returns, the loop breaks, or it goes on.
pub data Next : Type 0 where
  finished : CycleEnd → Run → Next
  no_more : String → Run → Next
  again : Loop → Run → Next

module _ (env : Surroundings) (step : Step) (task_id : String) where
  abbrev pub on_state : (OrchestratorState → OrchestratorState) → Run → Run
  on_state f run = record run { state = f run.state }

  -- The first reading of the agents in which one is found.
  abbrev pub first_pick :
      List String → List String → List (List AgentPresence) → Option AgentPresence
  first_pick tried used [] = none
  first_pick tried used (agents ∷ later) =
      or_pick (pick_with_diversity env.lower env.text_le agents step.task_kind tried used)
        (first_pick tried used later)

  abbrev pub attempt_row : ℕ → String → String → String → AttemptRecord
  attempt_row k agent_id status summary = record {
    iteration = k;
    agent_id = agent_id;
    status = status;
    summary = summary;
    started_at = env.now;
    ended_at = env.now;
  }

  abbrev pub note : ℕ → String → String → String → Run → Run
  note k agent_id status summary =
      on_state (append_attempt step.node_id task_id (attempt_row k agent_id status summary))

  -- The agent failed with the summary: the loop goes on with the others.
  abbrev pub retry : List String → String → Run → Next
  retry tried last_summary run =
      again
        (record {
          tried = tried;
          last_summary = last_summary;
          refined_instruction = refine step.instruction last_summary;
        })
        run

  unfoldable pub succeed : String → String → Run → Run
  succeed agent_id summary run =
      collect_facts_and_code_refs step.node_id task_id
        (on_state (record_success step.node_id task_id summary) run)

  -- What a terminal row makes of the attempt.
  unfoldable pub take_final : ℕ → String → List String → Task → Run → Next
  unfolding succeed
  take_final k agent_id tried final run =
      let reason =
        or_text final.blocked_reason (append "status=" (task_status_value final.status)) in
      let rejected = note k agent_id (task_status_value final.status) reason run in
      let completed =
        note k agent_id "done" (append agent_id (append " completed in attempt " (env.print k)))
          run in
      if status_eq final.status step.accept_when
      then finished (done_by agent_id) (
          succeed agent_id
            (append "completed by "
              (append agent_id (append " in " (append (env.print k) " attempt(s)"))))
            completed)
      else retry tried reason
          (record rejected { db = (Tasks.reopen_for_rerun task_id env.now rejected.db).1 })

  unfoldable pub take_polled : ℕ → String → List String → Polled → Run → Next
  unfolding take_final
  take_polled k agent_id tried (terminal final) run = take_final k agent_id tried final run
  take_polled k agent_id tried poll_timed_out run =
      retry tried (append "timeout on " agent_id)
        (note k agent_id "timeout" (append "timed out after " (append env.task_timeout "s")) run)
  take_polled k agent_id tried disappeared run = finished crashed run

  -- A gateway that accepts the work has the task claimed for its agent, and is waited for.
  unfoldable pub take_offer : ℕ → AgentPresence → List String → Bool → Run → Next
  unfolding take_polled
  take_offer k agent tried false run =
      retry tried (append "gateway " (append agent.agent_id " rejected")) (
        note k agent.agent_id "rejected"
          (append "gateway " (append agent.agent_id " rejected dispatch")) run)
  take_offer k agent tried true run =
      let db' = env.after k (mark_claimed task_id agent env.now run.db) in
      take_polled k agent.agent_id tried (wait_for_task_terminal (env.look k) env.rounds task_id)
        (record run { db = db' })

  abbrev pub dispatched : String → OrchestratorState → OrchestratorState
  dispatched agent_id s = record s {
    bundle_dispatched_agents = agent_id ∷ s.bundle_dispatched_agents;
  }

  unfoldable pub take_choice : ℕ → Loop → String → Option AgentPresence → Run → Next
  unfolding take_offer
  take_choice k loop upstream none run =
      no_more "no eligible gateway" (note k "" "no_agent" "no eligible gateway in pool" run)
  take_choice k loop upstream (some agent) run =
      let prompt =
        build_prompt env.print run.state.prompt loop.refined_instruction loop.last_summary k
          upstream in
      take_offer k agent (agent.agent_id ∷ loop.tried) (env.accepts k agent prompt)
        (on_state (dispatched agent.agent_id) run)

  unfoldable pub attempt_once : ℕ → Loop → String → Run → Next
  unfolding take_choice
  attempt_once k loop upstream run =
      take_choice k loop upstream
        (first_pick loop.tried run.state.bundle_dispatched_agents (env.agents k)) run

  unfoldable pub exhausted : String → Run → CycleEnd × Run
  exhausted last_summary run =
      let summary =
        append "exhausted "
          (append (env.print step.max_iterations) (append " attempt(s); last: " last_summary)) in
      (
        error_of summary,
        on_state
            (record_failure step.node_id task_id step.max_iterations "exhausted" summary env.now)
            run,
      )

  -- The attempts that are left, from the k-th on.
  unfoldable pub run_attempts : ℕ → ℕ → Loop → String → Run → CycleEnd × Run
  run_attempts zero k loop upstream run = exhausted loop.last_summary run
  run_attempts (suc left) k loop upstream run = elim (attempt_once k loop upstream run) [
    | finished end run' ↦ (end, run')
    | no_more last_summary run' ↦ exhausted last_summary run'
    | again loop' run' ↦ run_attempts left (suc k) loop' upstream run'
  ]
