-- ===== src/Samples/Orch.antt =====
-- Tasks with a brief: tests, and one application of each theorem.
use krewhub.Prelude.{ℕ, ◌≡◌, refl, true, some, [], ◌∷◌, arith}
use krewhub.Models.{Task}
use krewhub.Models.JsonData.{field, end, str}
use krewhub.Models.Status
use krewhub.Models.Status.{TaskStatus}
use krewhub.Db.{Db}
use krewhub.Db.Tasks
use krewhub.Controllers.Orch.{Config, Draw, blank_book, reconcile_task_id}
use krewhub.Controllers.Orch.Rows.{update-row}
use krewhub.Controllers.Orch.Once.{reconcile_task_id-once}
use krewhub.Controllers.Orch.Limit.{IsWithin, reconcile_task_id-IsWithin}
use krewhub.Controllers.Orch.Parking.{
  WorkersDie, Waits, HasRow, IsHalted, rounds, reconcile_task_id-parks,
}
use krewhub.Samples.{task_1, db_of}

abbrev cfg : Config
cfg = record { liveness_timeout = 60; max_respawns = 3; print = λ n. "n" }

abbrev draw : Draw
draw = record { now = 100; working_id = "evt_w"; event_id = "evt_e" }

-- A task that was handed over by a brief, and one that came back with a report.
abbrev briefed : Task
briefed = record task_1 { brief = some (field "goal" (str "ship") end) }

abbrev reported : Task
reported = record briefed { status = Status.done; report = some (field "status" (str "done") end) }

abbrev db_briefed : Db
db_briefed = db_of (briefed ∷ [])

abbrev db_reported : Db
db_reported = db_of (reported ∷ [])

found_reported : Tasks.get "task_1" db_reported ≡ some reported
unfolding Tasks.get
found_reported = refl

found_briefed : Tasks.get "task_1" db_briefed ≡ some briefed
unfolding Tasks.get
found_briefed = refl

reconcile_task_id-once_example :
    let db' = reconcile_task_id cfg [] "task_1" draw db_reported in
    reconcile_task_id cfg [] "task_1" draw db' ≡ db'
reconcile_task_id-once_example =
    reconcile_task_id-once cfg [] [] draw draw "task_1" db_reported reported found_reported refl

-- A worker takes the task and is never seen.
abbrev taken : Task → Task
taken t = record t { status = Status.claimed; assigned_runtime_id = some "rt_1" }

abbrev others : ℕ → Db → Db
others k = Tasks.update_where "task_1" (λ t. true) taken

workers_die : WorkersDie cfg (λ k. []) (λ k. draw) others "task_1"
workers_die k db t found = (
  taken t,
  update-row "task_1" taken db t (λ r. refl) found,
  (refl, refl, (λ h. (refl, ("rt_1", refl, refl)))),
)

briefed-Waits : Waits cfg 3 briefed
briefed-Waits = ((field "goal" (str "ship") end, refl), refl, refl, omega arith)

reconcile_task_id-parks_example :
    HasRow "task_1" IsHalted (rounds cfg (λ k. []) (λ k. draw) others "task_1" 4 0 db_briefed)
reconcile_task_id-parks_example =
    reconcile_task_id-parks cfg (λ k. []) (λ k. draw) others "task_1" db_briefed briefed 3
      workers_die found_briefed briefed-Waits

-- A worker that is dead at its third round.
abbrev worked : Task
worked = record (taken briefed) { orch = some (record blank_book { respawns = 2 }) }

abbrev db_worked : Db
db_worked = db_of (worked ∷ [])

found_worked : Tasks.get "task_1" db_worked ≡ some worked
unfolding Tasks.get
found_worked = refl

reconcile_task_id-IsWithin_example :
    IsWithin cfg 2 "task_1" (reconcile_task_id cfg [] "task_1" draw db_worked)
reconcile_task_id-IsWithin_example =
    reconcile_task_id-IsWithin cfg [] draw "task_1" db_worked worked found_worked (omega arith)
