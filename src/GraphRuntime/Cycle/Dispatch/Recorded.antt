-- ===== src/GraphRuntime/Cycle/Dispatch/Recorded.antt =====
-- That dispatch_cycle of src/krewhub/services/graph_runtime/cycle.py writes into the state what it
-- returns.
use krewhub.Prelude.{
  ℕ, zero, suc, String, ◌≡◌, refl, Bool, true, false, Option, none, some, List, [], ◌∷◌, ◌==◌,
  Bool-cases, Option-cases, inl, inr, eq_refl,
}
use krewhub.Prelude.Table.{dict_get, find, find-modify_same, find-append}
use krewhub.Models.{Task, AgentPresence, Timestamp}
use krewhub.Models.Status.{is_active}
use krewhub.Db.Tasks
use krewhub.Db.Events
use krewhub.GraphRuntime.Polling.{
  status_eq, Waited, ready, timed_out, dependency_failed, not_found, Polled, terminal,
  poll_timed_out, disappeared, wait_for_task_terminal,
}
use krewhub.GraphRuntime.Cycle.{Surroundings, Step, CycleEnd, done_by, error_of, crashed, or_text}
use krewhub.GraphRuntime.Cycle.Records.{
  TaskNodeResult, OrchestratorState, Run, node_key, result_of, blank_result, upsert, outcome_of,
  failed_attempt, record_success, record_failure, with_facts, collect_facts_and_code_refs,
}
use krewhub.GraphRuntime.Cycle.Attempts.{
  Loop, Next, finished, no_more, again, on_state, succeed, take_final, take_polled, take_offer,
  take_choice, attempt_once, exhausted, run_attempts, first_pick,
}
use krewhub.GraphRuntime.Cycle.Dispatch.{
  fresh_loop, fail, adopt, enter_loop, take_flight, work_on, after_wait, take_waited, take_deps,
  take_task, take_id, or_empty, dispatch_cycle,
}

-- The record of the node, there with that outcome.
abbrev pub HasOutcome : String → (TaskNodeResult → Type 0) → OrchestratorState → Type 0
HasOutcome node_id P s = (r : TaskNodeResult) × (result_of node_id s ≡ some r) × P r

-- What was changed or put under a key is found there.
upsert-HasOutcome :
    (node_id : String) (P : TaskNodeResult → Type 0) (change : TaskNodeResult → TaskNodeResult)
    (new : TaskNodeResult) (s : OrchestratorState)
    → ((r : TaskNodeResult) → node_key (change r) ≡ node_key r)
    → ((r : TaskNodeResult) → P (change r))
    → node_key new ≡ node_id
    → P new
    → HasOutcome node_id P (upsert node_id change new s)
upsert-HasOutcome node_id P change new s keeps changed key made =
    elim (Option-cases (find node_key node_id s.task_results)) [
      | inl e ↦ (
        new,
        rw (e, upsert)
            (rw (find-append node_key node_id s.task_results new e)
              (rw key (rw (eq_refl node_id) refl))),
        made,
      )
      | inr (r, e) ↦ (
        change r,
        rw (e, upsert) (find-modify_same node_key node_id change s.task_results r keeps e),
        changed r,
      )
    ]

record_success-HasOutcome :
    (node_id task_id summary : String) (s : OrchestratorState)
    → HasOutcome node_id (λ r. r.success ≡ true) (record_success node_id task_id summary s)
unfolding record_success
record_success-HasOutcome node_id task_id summary s =
    upsert-HasOutcome node_id (λ r. r.success ≡ true) (outcome_of true summary)
      (blank_result node_id task_id true summary) s (λ r. refl) (λ r. refl) refl refl

failed_attempt-node_id :
    (i : ℕ) (status summary : String) (now : Timestamp) (r : TaskNodeResult)
    → (failed_attempt i status summary now r).node_id ≡ r.node_id
failed_attempt-node_id zero status summary now r = refl
failed_attempt-node_id (suc i) status summary now r = refl

abbrev pub Failed : String → TaskNodeResult → Type 0
Failed summary r = (r.success ≡ false) × (r.summary ≡ summary)

failed_attempt-Failed :
    (i : ℕ) (status summary : String) (now : Timestamp) (r : TaskNodeResult)
    → Failed summary r
    → Failed summary (failed_attempt i status summary now r)
failed_attempt-Failed zero status summary now r h = h
failed_attempt-Failed (suc i) status summary now r h = h

record_failure-HasOutcome :
    (node_id task_id : String) (i : ℕ) (status summary : String) (now : Timestamp)
    (s : OrchestratorState)
    → HasOutcome node_id (Failed summary) (record_failure node_id task_id i status summary now s)
unfolding record_failure
record_failure-HasOutcome node_id task_id i status summary now s =
    upsert-HasOutcome node_id (Failed summary)
      (λ r. failed_attempt i status summary now (outcome_of false summary r))
      (failed_attempt i status summary now (blank_result node_id task_id false summary)) s
      (λ r. failed_attempt-node_id i status summary now (outcome_of false summary r))
      (λ r. failed_attempt-Failed i status summary now (outcome_of false summary r) (refl, refl))
      (failed_attempt-node_id i status summary now (blank_result node_id task_id false summary))
      (failed_attempt-Failed i status summary now (blank_result node_id task_id false summary)
        (refl, refl))

collect-HasOutcome :
    (node_id task_id : String) (run : Run)
    → HasOutcome node_id (λ r. r.success ≡ true) run.state
    → HasOutcome node_id
        (λ r. r.success ≡ true)
        (collect_facts_and_code_refs node_id task_id run).state
unfolding collect_facts_and_code_refs
collect-HasOutcome node_id task_id run (r, e, h) =
    let events = Events.list_by_task task_id run.db in
    (
      with_facts events r,
      find-modify_same node_key node_id (with_facts events) run.state.task_results r (λ x. refl) e,
      h,
    )

-- What the state holds of the node where the call ends.
abbrev pub IsRecorded : String → CycleEnd × Run → Type 0
IsRecorded node_id (done_by agent_id, run) = HasOutcome node_id (λ r. r.success ≡ true) run.state
IsRecorded node_id (error_of summary, run) = HasOutcome node_id (Failed summary) run.state
IsRecorded node_id (crashed, run) = Unit

abbrev NextRecorded : String → Next → Type 0
NextRecorded node_id (finished end run) = IsRecorded node_id (end, run)
NextRecorded node_id (no_more last_summary run) = Unit
NextRecorded node_id (again loop run) = Unit

module _ (env : Surroundings) (step : Step) where
  module _ (task_id : String) where
    succeed-HasOutcome :
        (agent_id summary : String) (run : Run)
        → HasOutcome step.node_id
            (λ r. r.success ≡ true)
            (succeed env step task_id agent_id summary run).state
    unfolding succeed
    succeed-HasOutcome agent_id summary run =
        collect-HasOutcome step.node_id task_id
          (on_state env step task_id (record_success step.node_id task_id summary) run)
          (record_success-HasOutcome step.node_id task_id summary run.state)

    take_final-Recorded :
        (k : ℕ) (agent_id : String) (tried : List String) (final : Task) (run : Run)
        → NextRecorded step.node_id (take_final env step task_id k agent_id tried final run)
    unfolding take_final
    take_final-Recorded k agent_id tried final run =
        elim (Bool-cases (status_eq final.status step.accept_when)) [
          | inl e ↦ rw (e, take_final) (succeed-HasOutcome agent_id _ _)
          | inr e ↦ rw (e, take_final) tt
        ]

    take_polled-Recorded :
        (k : ℕ) (agent_id : String) (tried : List String) (p : Polled) (run : Run)
        → NextRecorded step.node_id (take_polled env step task_id k agent_id tried p run)
    unfolding take_polled
    take_polled-Recorded k agent_id tried (terminal final) run =
        take_final-Recorded k agent_id tried final run
    take_polled-Recorded k agent_id tried poll_timed_out run = tt
    take_polled-Recorded k agent_id tried disappeared run = tt

    take_offer-Recorded :
        (k : ℕ) (agent : AgentPresence) (tried : List String) (accepted : Bool) (run : Run)
        → NextRecorded step.node_id (take_offer env step task_id k agent tried accepted run)
    unfolding take_offer
    take_offer-Recorded k agent tried false run = tt
    take_offer-Recorded k agent tried true run =
        take_polled-Recorded k agent.agent_id tried
          (wait_for_task_terminal (env.look k) env.rounds task_id) _

    take_choice-Recorded :
        (k : ℕ) (loop : Loop) (upstream : String) (choice : Option AgentPresence) (run : Run)
        → NextRecorded step.node_id (take_choice env step task_id k loop upstream choice run)
    unfolding take_choice
    take_choice-Recorded k loop upstream none run = tt
    take_choice-Recorded k loop upstream (some agent) run = take_offer-Recorded k agent _ _ _

    exhausted-Recorded :
        (last_summary : String) (run : Run)
        → IsRecorded step.node_id (exhausted env step task_id last_summary run)
    unfolding exhausted
    exhausted-Recorded last_summary run =
        record_failure-HasOutcome step.node_id task_id step.max_iterations "exhausted" _ env.now
          run.state

    run_attempts-Recorded :
        (left k : ℕ) (loop : Loop) (upstream : String) (run : Run)
        → IsRecorded step.node_id (run_attempts env step task_id left k loop upstream run)
    unfolding run_attempts attempt_once
    run_attempts-Recorded zero k loop upstream run = exhausted-Recorded loop.last_summary run
    run_attempts-Recorded (suc left) k loop upstream run =
        by_next (attempt_once env step task_id k loop upstream run) refl
          (take_choice-Recorded k loop upstream
            (first_pick env step task_id loop.tried run.state.bundle_dispatched_agents
              (env.agents k))
            run)
          (run_attempts-Recorded left (suc k))
      where
        by_next :
            (next : Next)
            → attempt_once env step task_id k loop upstream run ≡ next
            → NextRecorded step.node_id next
            → ((l : Loop) (u : String) (r : Run)
                → IsRecorded step.node_id (run_attempts env step task_id left (suc k) l u r))
            → IsRecorded step.node_id (run_attempts env step task_id (suc left) k loop upstream run)
        by_next (finished end run') e h ih = rw (e, run_attempts) h
        by_next (no_more last_summary run') e h ih =
            rw (e, run_attempts) (exhausted-Recorded last_summary run')
        by_next (again loop' run') e h ih = rw (e, run_attempts) (ih loop' upstream run')

  fail-Recorded :
      (task_id : String) (i : ℕ) (status summary : String) (run : Run)
      → IsRecorded step.node_id (fail env step task_id i status summary run)
  unfolding fail
  fail-Recorded task_id i status summary run =
      record_failure-HasOutcome step.node_id task_id i status summary env.now run.state

  adopt-Recorded :
      (task_id : String) (agent : Option String) (summary : String) (run : Run)
      → IsRecorded step.node_id (adopt env step task_id agent summary run)
  unfolding adopt
  adopt-Recorded task_id agent summary run =
      succeed-HasOutcome task_id (or_text agent "") summary run

  enter_loop-Recorded :
      (task : Task) (loop : Loop) (run : Run)
      → IsRecorded step.node_id (enter_loop env step task loop run)
  unfolding enter_loop
  enter_loop-Recorded task loop run =
      run_attempts-Recorded task.id step.max_iterations 1 loop
        (step.upstream_context task.depends_on_task_ids) run

  take_flight-Recorded :
      (task : Task) (p : Polled) (run : Run)
      → IsRecorded step.node_id (take_flight env step task p run)
  unfolding take_flight
  take_flight-Recorded task poll_timed_out run = enter_loop-Recorded task _ _
  take_flight-Recorded task disappeared run = tt
  take_flight-Recorded task (terminal final) run =
      elim (Bool-cases (status_eq final.status step.accept_when)) [
        | inl e ↦ rw (e, take_flight) (succeed-HasOutcome task.id _ _ _)
        | inr e ↦ rw (e, take_flight) (enter_loop-Recorded task _ _)
      ]

  work_on-Recorded : (task : Task) (run : Run) → IsRecorded step.node_id (work_on env step task run)
  unfolding work_on
  work_on-Recorded task run = elim (Bool-cases (is_active task.status)) [
    | inl e ↦ rw (e, work_on) (take_flight-Recorded task _ _)
    | inr e ↦ rw (e, work_on) (enter_loop-Recorded task (fresh_loop env step) run)
  ]

  after_wait-Recorded :
      (task : Task) (again : Option Task) (run : Run)
      → IsRecorded step.node_id (after_wait env step task again run)
  unfolding after_wait
  after_wait-Recorded task none run = work_on-Recorded task run
  after_wait-Recorded task (some r) run = elim (Bool-cases (status_eq r.status step.accept_when)) [
    | inl e ↦ rw (e, after_wait) (adopt-Recorded task.id r.claimed_by_agent_id _ run)
    | inr e ↦ rw (e, after_wait) (work_on-Recorded r run)
  ]

  take_waited-Recorded :
      (task : Task) (w : Waited) (run : Run)
      → IsRecorded step.node_id (take_waited env step task w run)
  unfolding take_waited
  take_waited-Recorded task ready run = after_wait-Recorded task _ run
  take_waited-Recorded task timed_out run = fail-Recorded task.id 0 "dep_timeout" _ run
  take_waited-Recorded task (dependency_failed dep st reason) run =
      fail-Recorded task.id 0 "dep_failed" _ run
  take_waited-Recorded task (not_found dep) run = fail-Recorded task.id 0 "dep_missing" _ run

  take_deps-Recorded :
      (task : Task) (deps : List String) (run : Run)
      → IsRecorded step.node_id (take_deps env step task deps run)
  unfolding take_deps
  take_deps-Recorded task [] run = work_on-Recorded task run
  take_deps-Recorded task (dep ∷ deps) run = take_waited-Recorded task _ _

  take_task-Recorded :
      (task_id : String) (found : Option Task) (run : Run)
      → IsRecorded step.node_id (take_task env step task_id found run)
  unfolding take_task
  take_task-Recorded task_id none run = fail-Recorded task_id 1 "missing_task" _ run
  take_task-Recorded task_id (some t) run =
      elim (Bool-cases (status_eq t.status step.accept_when)) [
        | inl e ↦ rw (e, take_task) (adopt-Recorded task_id t.claimed_by_agent_id _ run)
        | inr e ↦ rw (e, take_task) (take_deps-Recorded t t.depends_on_task_ids run)
      ]

  take_id-Recorded :
      (task_id : String) (run : Run) → IsRecorded step.node_id (take_id env step task_id run)
  unfolding take_id
  take_id-Recorded task_id run = elim (Bool-cases (task_id == "")) [
    | inl e ↦ rw (e, take_id) (fail-Recorded "" 1 "no_task" _ run)
    | inr e ↦ rw (e, take_id) (take_task-Recorded task_id (Tasks.get task_id run.db) run)
  ]

  -- Where dispatch_cycle returns done, the state holds a result of the node that is a success;
  -- where it returns an error, the state holds a result that is no success and has the summary of
  -- the error.
  pub dispatch_cycle-IsRecorded :
      (run : Run) → IsRecorded step.node_id (dispatch_cycle env step run)
  unfolding dispatch_cycle
  dispatch_cycle-IsRecorded run =
      take_id-Recorded (or_empty env step (dict_get step.node_id step.task_id_map)) run
