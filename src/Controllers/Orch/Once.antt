-- ===== src/Controllers/Orch/Once.antt =====
-- That src/krewhub/controllers/orch_controller.py decides once on a task that is done.
use mathlib.Core.Path.{subst}
use krewhub.Prelude.{
  ◌⊎◌, String, ◌≡◌, refl, sym, true, false, none, some, List, arith, Bool-cases, Option-cases, inl,
  inr,
}
use krewhub.Models.{Task, OrchBook}
use krewhub.Models.JsonData.{Fields}
use krewhub.Models.Status.{TaskStatus, is_done}
use krewhub.Db.{Db}
use krewhub.Db.Tasks
use krewhub.Db.Tasks.{task_key}
use krewhub.Controllers.Orch.{
  Runtime, Config, Draw, report_ok, book_of, is_settled, brain_attached, booked, handle_done,
  reconcile_row, reconcile_found, reconcile_task_id,
}
use krewhub.Controllers.Orch.Rows.{get-id, is_claimed, accept-row, defer-row, escalate-row}

-- A row on which nothing is left to decide.
abbrev IsDecided : Task → Type 0
IsDecided t =
    (is_done t.status ≡ true)
    × ((is_settled (book_of t.orch) ≡ true)
        ⊎ ((report_ok t.report ≡ false) × ((book_of t.orch).report_invalid ≡ true)))

done-unclaimed : (s : TaskStatus) → is_done s ≡ true → is_claimed s ≡ false
done-unclaimed TaskStatus.done h = refl
done-unclaimed TaskStatus.claimed h = cc
done-unclaimed _ h = cc

awaiting_of_unsettled : (b : OrchBook) → is_settled b ≡ false → b.awaiting_brain ≡ false
awaiting_of_unsettled b h = ground arith

settled_of_awaiting : (b : OrchBook) → b.awaiting_brain ≡ true → is_settled b ≡ true
settled_of_awaiting b h = ground arith

module _ (cfg : Config) (runtimes : List Runtime) (draw : Draw) (db : Db) where
  -- A round leaves a decided row and all else as they are.
  decided_round :
      (id : String) (t : Task)
      → Tasks.get id db ≡ some t
      → IsDecided t
      → reconcile_task_id cfg runtimes id draw db ≡ db
  unfolding reconcile_task_id handle_done
  decided_round id t found (d, how) = elim (Option-cases t.brief) [
    | inl e ↦ rw (found, reconcile_found) (rw (e, reconcile_row) refl)
    | inr (brief, e) ↦ elim how [
      | inl s ↦ rw (found, reconcile_found) (rw (e, reconcile_row) (rw s refl))
      | inr (bad, told) ↦ elim (Bool-cases (is_settled (book_of t.orch))) [
        | inl s ↦ rw (found, reconcile_found) (rw (e, reconcile_row) (rw s refl))
        | inr s ↦
            rw (found, reconcile_found)
              (rw (e, reconcile_row) (rw s (rw d (rw (bad, handle_done) (rw told refl)))))
      ]
    ]
  ]

  module _ (t : Task) (brief : Fields) (found : Tasks.get t.id db ≡ some t)
      (briefed : t.brief ≡ some brief) (done : is_done t.status ≡ true)
      (unsettled : is_settled (book_of t.orch) ≡ false) where
    first_round :
        reconcile_task_id cfg runtimes t.id draw db ≡ handle_done cfg t (book_of t.orch) draw db
    unfolding reconcile_task_id
    first_round =
        rw (found, reconcile_found) (rw (briefed, reconcile_row) (rw unsettled (rw done refl)))

    -- A round that finds a task done leaves it decided.
    handle_done-decides :
        (u : Task) × (Tasks.get t.id (handle_done cfg t (book_of t.orch) draw db) ≡ some u)
        × IsDecided u
    unfolding handle_done
    handle_done-decides =
        let b = book_of t.orch in
        let idle = done-unclaimed t.status done in
        elim (Bool-cases (report_ok t.report)) [
          | inl good ↦ elim (Bool-cases (brain_attached b)) [
            | inl brain ↦ (
              booked (record b { awaiting_brain = true }) t,
              rw (good, handle_done)
                  (rw brain (
                    rw (awaiting_of_unsettled b unsettled) (defer-row cfg draw db t found b idle))),
              (done, inl (settled_of_awaiting (record b { awaiting_brain = true }) refl)),
            )
            | inr alone ↦ (
              booked (record b { accepted_at = some draw.now }) t,
              rw (good, handle_done) (rw alone (accept-row cfg draw db t found b idle)),
              (done, inl refl),
            )
          ]
          | inr bad ↦ elim (Bool-cases b.report_invalid) [
            | inl told ↦ (t, rw (bad, handle_done) (rw told found), (done, inr (bad, told)))
            | inr new ↦ (
              booked (record b { report_invalid = true }) t,
              rw (bad, handle_done) (rw new (escalate-row cfg draw db t found b idle)),
              (done, inr (bad, refl)),
            )
          ]
        ]

idle_round :
    (cfg : Config) (runtimes : List Runtime) (draw : Draw) (id : String) (db : Db) (t : Task)
    → Tasks.get id db ≡ some t
    → (t.brief ≡ none) ⊎ (is_settled (book_of t.orch) ≡ true)
    → reconcile_task_id cfg runtimes id draw db ≡ db
unfolding reconcile_task_id
idle_round cfg runtimes draw id db t found (inl e) =
    rw (found, reconcile_found) (rw (e, reconcile_row) refl)
idle_round cfg runtimes draw id db t found (inr s) = elim (Option-cases t.brief) [
  | inl e ↦ rw (found, reconcile_found) (rw (e, reconcile_row) refl)
  | inr (brief, e) ↦ rw (found, reconcile_found) (rw (e, reconcile_row) (rw s refl))
]

-- A second round of the controller on a task that is done changes nothing: acceptance, deferral
-- and escalation are written and announced once.
pub reconcile_task_id-once :
    (cfg : Config) (runtimes later : List Runtime) (draw draw' : Draw) (id : String) (db : Db)
    (t : Task)
    → Tasks.get id db ≡ some t
    → is_done t.status ≡ true
    → let db' = reconcile_task_id cfg runtimes id draw db in
      reconcile_task_id cfg later id draw' db' ≡ db'
reconcile_task_id-once cfg runtimes later draw draw' id db t found done =
    elim (Option-cases t.brief) [
      | inl e ↦
          rw (idle_round cfg runtimes draw id db t found (inl e))
            (idle_round cfg later draw' id db t found (inl e))
      | inr (brief, briefed) ↦ elim (Bool-cases (is_settled (book_of t.orch))) [
        | inl s ↦
            rw (idle_round cfg runtimes draw id db t found (inr s))
              (idle_round cfg later draw' id db t found (inr s))
        | inr s ↦
            let same = get-id id db t found in
            let at = subst (λ x. Tasks.get x db ≡ some t) (sym same) found in
            let (u, row, decided) =
              handle_done-decides cfg runtimes draw db t brief at briefed done s in
            let db' = handle_done cfg t (book_of t.orch) draw db in
            let step =
              subst (λ x. reconcile_task_id cfg runtimes x draw db ≡ db') same
                (first_round cfg runtimes draw db t brief at briefed done s) in
            let row' = subst (λ x. Tasks.get x db' ≡ some u) same row in
            rw step (decided_round cfg later draw' db' id u row' decided)
      ]
    ]
