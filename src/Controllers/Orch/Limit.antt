-- ===== src/Controllers/Orch/Limit.antt =====
-- The limit of respawns of src/krewhub/controllers/orch_controller.py.
use mathlib.Core.Path.{subst}
use krewhub.Prelude.{
  ℕ, ◌≤◌, String, ◌≡◌, sym, true, false, some, List, leb, arith, Bool-cases, Option-cases, inl, inr,
}
use krewhub.Prelude.Table.{find}
use krewhub.Models.{Task}
use krewhub.Models.Status.{TaskStatus, is_done, is_active}
use krewhub.Db.{Db}
use krewhub.Db.Tasks
use krewhub.Db.Tasks.{task_key}
use krewhub.Controllers.Orch.{
  Runtime, runtime_key, Config, Draw, report_ok, brain_attached, book_of, is_settled, is_alive,
  handle_done, check_liveness, by_status, reconcile_row, reconcile_found, reconcile_task_id,
}
use krewhub.Controllers.Orch.Rows.{
  get-id, is_claimed, accept-row, defer-row, escalate-row, halt-row, respawn-row,
}

abbrev pub respawns_of : Task → ℕ
respawns_of t = (book_of t.orch).respawns

-- The row is there, its count has not sunk, and it is within the limit.
abbrev pub IsWithin : Config → ℕ → String → Db → Type 0
IsWithin cfg n id db =
    (u : Task) × (Tasks.get id db ≡ some u)
    × (n ≤ respawns_of u)
    × (respawns_of u ≤ cfg.max_respawns)

done-idle : (s : TaskStatus) → is_done s ≡ true → is_claimed s ≡ false
done-idle s h = ground arith

module _ (cfg : Config) (runtimes : List Runtime) (draw : Draw) (db : Db) (t : Task)
    (found : Tasks.get t.id db ≡ some t) (fits : respawns_of t ≤ cfg.max_respawns) where
  stays : IsWithin cfg (respawns_of t) t.id db
  stays = (t, found, omega arith, fits)

  done-IsWithin :
      is_claimed t.status ≡ false
      → IsWithin cfg (respawns_of t) t.id (handle_done cfg t (book_of t.orch) draw db)
  unfolding handle_done
  done-IsWithin idle =
      let b = book_of t.orch in
      elim (Bool-cases (report_ok t.report)) [
        | inl good ↦ elim (Bool-cases (brain_attached b)) [
          | inl brain ↦ elim (Bool-cases b.awaiting_brain) [
            | inl told ↦ rw (good, handle_done) (rw brain (rw told stays))
            | inr new ↦
                rw (good, handle_done)
                  (rw brain (rw new (_, defer-row cfg draw db t found b idle, omega arith, fits)))
          ]
          | inr alone ↦
              rw (good, handle_done)
                (rw alone (_, accept-row cfg draw db t found b idle, omega arith, fits))
        ]
        | inr bad ↦ elim (Bool-cases b.report_invalid) [
          | inl told ↦ rw (bad, handle_done) (rw told stays)
          | inr new ↦
              rw (bad, handle_done)
                (rw new (_, escalate-row cfg draw db t found b idle, omega arith, fits))
        ]
      ]

  live-IsWithin :
      IsWithin cfg (respawns_of t) t.id (check_liveness cfg runtimes t (book_of t.orch) draw db)
  unfolding check_liveness
  live-IsWithin =
      let b = book_of t.orch in
      elim (Option-cases t.assigned_runtime_id) [
        | inl none_given ↦ rw (none_given, check_liveness) stays
        | inr (rid, given) ↦
            elim (Bool-cases (is_alive cfg draw.now (find runtime_key rid runtimes))) [
              | inl alive ↦ rw (given, check_liveness) (rw alive stays)
              | inr dead ↦ elim (Bool-cases (leb cfg.max_respawns b.respawns)) [
                | inl spent ↦
                    rw (given, check_liveness)
                      (rw dead (rw spent (_, halt-row cfg draw db t found b, omega arith, fits)))
                | inr left ↦
                    rw (given, check_liveness)
                      (rw dead (
                        rw left (
                          _,
                          respawn-row cfg draw db t found rid b,
                          omega arith,
                          ground (arith, left),
                        )))
              ]
            ]
      ]

  status-IsWithin :
      IsWithin cfg (respawns_of t) t.id (by_status cfg runtimes t (book_of t.orch) draw db)
  status-IsWithin = elim (Bool-cases (is_done t.status)) [
    | inl done ↦ rw done (done-IsWithin (done-idle t.status done))
    | inr undone ↦ elim (Bool-cases (is_active t.status)) [
      | inl active ↦ rw undone (rw active live-IsWithin)
      | inr passive ↦ rw undone (rw passive stays)
    ]
  ]

  row-IsWithin : IsWithin cfg (respawns_of t) t.id (reconcile_row cfg runtimes t draw db)
  unfolding reconcile_row
  row-IsWithin = elim (Option-cases t.brief) [
    | inl bare ↦ rw (bare, reconcile_row) stays
    | inr (brief, given) ↦ elim (Bool-cases (is_settled (book_of t.orch))) [
      | inl settled ↦ rw (given, reconcile_row) (rw settled stays)
      | inr unsettled ↦ rw (given, reconcile_row) (rw unsettled status-IsWithin)
    ]
  ]

  task-IsWithin : IsWithin cfg (respawns_of t) t.id (reconcile_task_id cfg runtimes t.id draw db)
  unfolding reconcile_task_id
  task-IsWithin = rw (found, reconcile_found) row-IsWithin

-- A round of the controller on a task whose respawns are within the limit leaves the row there,
-- with respawns that are still within the limit and no fewer than before.
pub reconcile_task_id-IsWithin :
    (cfg : Config) (runtimes : List Runtime) (draw : Draw) (id : String) (db : Db) (t : Task)
    → Tasks.get id db ≡ some t
    → respawns_of t ≤ cfg.max_respawns
    → IsWithin cfg (respawns_of t) id (reconcile_task_id cfg runtimes id draw db)
reconcile_task_id-IsWithin cfg runtimes draw id db t found fits =
    let same = get-id id db t found in
    subst (λ x. IsWithin cfg (respawns_of t) x (reconcile_task_id cfg runtimes x draw db)) same
      (task-IsWithin cfg runtimes draw db t (subst (λ x. Tasks.get x db ≡ some t) (sym same) found)
        fits)
