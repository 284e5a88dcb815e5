-- ===== src/GraphRuntime/Cycle/Dispatch/Honest.antt =====
-- That dispatch_cycle of src/krewhub/services/graph_runtime/cycle.py calls a step done only where it
-- has read a row of its task with the status that is asked for.
use mathlib.Core.Path.{subst}
use krewhub.Prelude.{
  ℕ, zero, suc, String, ◌≡◌, refl, Bool, true, false, Option, none, some, List, [], ◌∷◌, ◌==◌,
  Bool-cases, inl, inr,
}
use krewhub.Prelude.Table.{dict_get, find-key}
use krewhub.Models.{Task, AgentPresence}
use krewhub.Models.Status.{is_active}
use krewhub.Db.Tasks
use krewhub.GraphRuntime.Polling.{
  status_eq, Waited, ready, timed_out, dependency_failed, not_found, Polled, terminal,
  poll_timed_out, disappeared, wait_for_task_terminal,
}
use krewhub.GraphRuntime.Cycle.{Surroundings, Step, CycleEnd, done_by, error_of, crashed}
use krewhub.GraphRuntime.Cycle.Records.{Run}
use krewhub.GraphRuntime.Cycle.Attempts.{
  Loop, Next, finished, no_more, again, take_final, take_polled, take_offer, take_choice,
  attempt_once, exhausted, run_attempts, first_pick,
}
use krewhub.GraphRuntime.Cycle.Dispatch.{
  fresh_loop, fail, adopt, enter_loop, take_flight, work_on, after_wait, take_waited, take_deps,
  take_task, take_id, or_empty, dispatch_cycle,
}
use krewhub.Db.{Db}

-- The readings of the task's row.
pub data Source (env : Surroundings) (db : Db) (task_id : String) (t : Task) : Type 0 where
  at_entry : Tasks.get task_id db ≡ some t → Source env db task_id t
  after_dependencies : Tasks.get task_id (env.dep_after db) ≡ some t → Source env db task_id t
  in_flight :
      wait_for_task_terminal env.flight_look env.rounds task_id ≡ terminal t
      → Source env db task_id t
  after_attempt :
      (k : ℕ)
      → wait_for_task_terminal (env.look k) env.rounds task_id ≡ terminal t
      → Source env db task_id t

-- Some reading had the status.
abbrev pub IsAccepted : Surroundings → Step → Db → String → Type 0
IsAccepted env step db task_id =
    (t : Task) × (status_eq t.status step.accept_when ≡ true) × Source env db task_id t

abbrev pub IsHonest : Surroundings → Step → Db → String → CycleEnd × Run → Type 0
IsHonest env step db task_id (done_by agent_id, run) = IsAccepted env step db task_id
IsHonest env step db task_id (error_of summary, run) = Unit
IsHonest env step db task_id (crashed, run) = Unit

module _ (env : Surroundings) (step : Step) (db : Db) where
  abbrev NextHonest : String → Next → Type 0
  NextHonest task_id (finished end run) = IsHonest env step db task_id (end, run)
  NextHonest task_id (no_more last_summary run) = Unit
  NextHonest task_id (again loop run) = Unit

  module _ (task_id : String) where
    take_final-Honest :
        (k : ℕ) (agent_id : String) (tried : List String) (final : Task) (run : Run)
        → wait_for_task_terminal (env.look k) env.rounds task_id ≡ terminal final
        → NextHonest task_id (take_final env step task_id k agent_id tried final run)
    unfolding take_final
    take_final-Honest k agent_id tried final run read =
        elim (Bool-cases (status_eq final.status step.accept_when)) [
          | inl e ↦ rw (e, take_final) (final, e, Source.after_attempt k read)
          | inr e ↦ rw (e, take_final) tt
        ]

    take_polled-Honest :
        (k : ℕ) (agent_id : String) (tried : List String) (p : Polled) (run : Run)
        → wait_for_task_terminal (env.look k) env.rounds task_id ≡ p
        → NextHonest task_id (take_polled env step task_id k agent_id tried p run)
    unfolding take_polled
    take_polled-Honest k agent_id tried (terminal final) run read =
        take_final-Honest k agent_id tried final run read
    take_polled-Honest k agent_id tried poll_timed_out run read = tt
    take_polled-Honest k agent_id tried disappeared run read = tt

    take_offer-Honest :
        (k : ℕ) (agent : AgentPresence) (tried : List String) (accepted : Bool) (run : Run)
        → NextHonest task_id (take_offer env step task_id k agent tried accepted run)
    unfolding take_offer
    take_offer-Honest k agent tried false run = tt
    take_offer-Honest k agent tried true run =
        take_polled-Honest k agent.agent_id tried
          (wait_for_task_terminal (env.look k) env.rounds task_id) _ refl

    take_choice-Honest :
        (k : ℕ) (loop : Loop) (upstream : String) (choice : Option AgentPresence) (run : Run)
        → NextHonest task_id (take_choice env step task_id k loop upstream choice run)
    unfolding take_choice
    take_choice-Honest k loop upstream none run = tt
    take_choice-Honest k loop upstream (some agent) run = take_offer-Honest k agent _ _ _

    exhausted-Honest :
        (last_summary : String) (run : Run)
        → IsHonest env step db task_id (exhausted env step task_id last_summary run)
    unfolding exhausted
    exhausted-Honest last_summary run = tt

    run_attempts-Honest :
        (left k : ℕ) (loop : Loop) (upstream : String) (run : Run)
        → IsHonest env step db task_id (run_attempts env step task_id left k loop upstream run)
    unfolding run_attempts attempt_once
    run_attempts-Honest zero k loop upstream run = exhausted-Honest loop.last_summary run
    run_attempts-Honest (suc left) k loop upstream run =
        by_next (attempt_once env step task_id k loop upstream run) refl
          (take_choice-Honest k loop upstream
            (first_pick env step task_id loop.tried run.state.bundle_dispatched_agents
              (env.agents k))
            run)
          (run_attempts-Honest left (suc k))
      where
        by_next :
            (next : Next)
            → attempt_once env step task_id k loop upstream run ≡ next
            → NextHonest task_id next
            → ((l : Loop) (u : String) (r : Run)
                → IsHonest env step db task_id (run_attempts env step task_id left (suc k) l u r))
            → IsHonest env step db task_id
                (run_attempts env step task_id (suc left) k loop upstream run)
        by_next (finished end run') e h ih = rw (e, run_attempts) h
        by_next (no_more last_summary run') e h ih =
            rw (e, run_attempts) (exhausted-Honest last_summary run')
        by_next (again loop' run') e h ih = rw (e, run_attempts) (ih loop' upstream run')

  enter_loop-Honest :
      (task : Task) (loop : Loop) (run : Run)
      → IsHonest env step db task.id (enter_loop env step task loop run)
  unfolding enter_loop
  enter_loop-Honest task loop run =
      run_attempts-Honest task.id step.max_iterations 1 loop
        (step.upstream_context task.depends_on_task_ids) run

  take_flight-Honest :
      (task : Task) (p : Polled) (run : Run)
      → wait_for_task_terminal env.flight_look env.rounds task.id ≡ p
      → IsHonest env step db task.id (take_flight env step task p run)
  unfolding take_flight
  take_flight-Honest task poll_timed_out run read = enter_loop-Honest task _ _
  take_flight-Honest task disappeared run read = tt
  take_flight-Honest task (terminal final) run read =
      elim (Bool-cases (status_eq final.status step.accept_when)) [
        | inl e ↦ rw (e, take_flight) (final, e, Source.in_flight read)
        | inr e ↦ rw (e, take_flight) (enter_loop-Honest task _ _)
      ]

  work_on-Honest :
      (task : Task) (run : Run) → IsHonest env step db task.id (work_on env step task run)
  unfolding work_on
  work_on-Honest task run = elim (Bool-cases (is_active task.status)) [
    | inl e ↦ rw (e, work_on) (take_flight-Honest task _ _ refl)
    | inr e ↦ rw (e, work_on) (enter_loop-Honest task (fresh_loop env step) run)
  ]

  get-id : (id : String) (d : Db) (t : Task) → Tasks.get id d ≡ some t → t.id ≡ id
  unfolding Tasks.get
  get-id id d t e = find-key Tasks.task_key id d.tasks t e

  after_wait-Honest :
      (task : Task) (found : Option Task) (run : Run)
      → Tasks.get task.id (env.dep_after db) ≡ found
      → IsHonest env step db task.id (after_wait env step task found run)
  unfolding after_wait adopt
  after_wait-Honest task none run read = work_on-Honest task run
  after_wait-Honest task (some r) run read =
      elim (Bool-cases (status_eq r.status step.accept_when)) [
        | inl e ↦ rw (e, after_wait) (r, e, Source.after_dependencies read)
        | inr e ↦
            rw (e, after_wait)
              (subst (λ id. IsHonest env step db id (work_on env step r run))
                (get-id task.id (env.dep_after db) r read) (work_on-Honest r run))
      ]

  take_waited-Honest :
      (task : Task) (w : Waited) (run : Run)
      → run.db ≡ env.dep_after db
      → IsHonest env step db task.id (take_waited env step task w run)
  unfolding take_waited fail
  take_waited-Honest task ready run e =
      after_wait-Honest task (Tasks.get task.id run.db) run (rw e refl)
  take_waited-Honest task timed_out run e = tt
  take_waited-Honest task (dependency_failed dep st reason) run e = tt
  take_waited-Honest task (not_found dep) run e = tt

  take_deps-Honest :
      (task : Task) (deps : List String) (run : Run)
      → run.db ≡ db
      → IsHonest env step db task.id (take_deps env step task deps run)
  unfolding take_deps
  take_deps-Honest task [] run e = work_on-Honest task run
  take_deps-Honest task (dep ∷ deps) run e = take_waited-Honest task _ _ (rw e refl)

  take_task-Honest :
      (task_id : String) (found : Option Task) (run : Run)
      → run.db ≡ db
      → Tasks.get task_id db ≡ found
      → IsHonest env step db task_id (take_task env step task_id found run)
  unfolding take_task fail adopt
  take_task-Honest task_id none run same read = tt
  take_task-Honest task_id (some t) run same read =
      elim (Bool-cases (status_eq t.status step.accept_when)) [
        | inl e ↦ rw (e, take_task) (t, e, Source.at_entry read)
        | inr e ↦
            rw (e, take_task)
              (subst
                (λ id. IsHonest env step db id (take_deps env step t t.depends_on_task_ids run))
                (get-id task_id db t read) (take_deps-Honest t t.depends_on_task_ids run same))
      ]

  take_id-Honest :
      (task_id : String) (run : Run)
      → run.db ≡ db
      → IsHonest env step db task_id (take_id env step task_id run)
  unfolding take_id fail
  take_id-Honest task_id run same = elim (Bool-cases (task_id == "")) [
    | inl e ↦ rw (e, take_id) tt
    | inr e ↦
        rw (e, take_id)
          (take_task-Honest task_id (Tasks.get task_id run.db) run same (rw same refl))
  ]

-- Whatever others write and gateways answer, dispatch_cycle returns done only where some reading
-- of the task's row (at entry, after the wait for the dependencies, while an earlier run was in
-- flight, or after an attempt) had the status that is asked for.
pub dispatch_cycle-IsHonest :
    (env : Surroundings) (step : Step) (run : Run)
    → IsHonest env step run.db
        (or_empty env step (dict_get step.node_id step.task_id_map))
        (dispatch_cycle env step run)
unfolding dispatch_cycle
dispatch_cycle-IsHonest env step run =
    take_id-Honest env step run.db (or_empty env step (dict_get step.node_id step.task_id_map)) run
      refl
