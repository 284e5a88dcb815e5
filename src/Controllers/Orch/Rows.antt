-- ===== src/Controllers/Orch/Rows.antt =====
-- What a round of src/krewhub/controllers/orch_controller.py leaves of the task's row.
use krewhub.Prelude.{
  ℕ, ◌+◌, String, ◌≡◌, refl, ◌∙◌, ap, Bool, true, false, Option, none, some, if◌then◌else◌,
  Bool-cases, inl, inr,
}
use krewhub.Prelude.Table.{find, find-key, find-modify_same}
use krewhub.Models.{Task, OrchBook, Timestamp}
use krewhub.Models.JsonData.{Fields}
use krewhub.Models.Status.{
  TaskStatus, EventType, is_active, is_done, is_open, log, milestone, needs_human, blocker,
}
use krewhub.Models.Status
use krewhub.Db.{Db, ok, publish}
use krewhub.Db.Tasks
use krewhub.Db.Tasks.{task_key, apply_patch}
use krewhub.Db.Events
use krewhub.Db.Events.{event_ids, is_used}
use krewhub.TaskService.{check_and_stamp_session_token, cookbook_id_for_bundle}
use krewhub.TaskService.Visibility.{classify_visibility}
use krewhub.TaskService.Posting.{PostArgs, post_event, start_working, append_event}
use krewhub.Controllers.Orch.{
  Config, Draw, booked, write_orch, orch_args, emit, accept, defer, escalate, halt, halt_patch,
  respawn, publish_row,
}

-- A task that is not claimed keeps its row while an event is posted for it.
abbrev pub is_claimed : TaskStatus → Bool
is_claimed TaskStatus.claimed = true
is_claimed _ = false

start_working-unclaimed :
    (task_id actor_id visibility working_id : String) (c : Option String) (t : Task)
    (a : Option Status.ActorType) (now : Timestamp) (db : Db) (s : TaskStatus)
    → t.status ≡ s
    → is_claimed s ≡ false
    → start_working task_id c t actor_id a visibility working_id now db ≡ (ok tt, db)
unfolding start_working
start_working-unclaimed task_id actor_id visibility working_id c t a now db TaskStatus.claimed e h =
    absurd (cc)
start_working-unclaimed task_id actor_id visibility working_id c t a now db _ e h =
    rw (e, start_working) refl

pub get-id : (id : String) (db : Db) (t : Task) → Tasks.get id db ≡ some t → t.id ≡ id
unfolding Tasks.get
get-id id db t e = find-key task_key id db.tasks t e

append_event-tasks :
    (task_id id : String) (c : Option String) (t : Task) (args : PostArgs) (now : Timestamp)
    (payload : Fields) (db : Db)
    → args.payload ≡ some payload
    → (append_event task_id c t args id now db).1.tasks ≡ db.tasks
unfolding append_event publish Events.create Events.insert
append_event-tasks task_id id c t args now payload db given =
    elim (Bool-cases (is_used id (event_ids db.events))) [
      | inl used ↦ rw (given, append_event) (rw used refl)
      | inr fresh ↦ rw (given, append_event) (rw fresh refl)
    ]

emit-tasks :
    (task_id : String) (event_type : EventType) (body : String) (payload : Fields) (draw : Draw)
    (db : Db) (t : Task)
    → Tasks.get task_id db ≡ some t
    → is_claimed t.status ≡ false
    → (emit task_id event_type body payload draw db).tasks ≡ db.tasks
unfolding emit post_event check_and_stamp_session_token
emit-tasks task_id event_type body payload draw db t found idle =
    rw (found, post_event)
      (rw
        (start_working-unclaimed task_id "orch" (classify_visibility "task_working") draw.working_id
          (cookbook_id_for_bundle t.bundle_id db) t (some Status.system) draw.now db t.status refl
          idle)
        (append_event-tasks task_id draw.event_id (cookbook_id_for_bundle t.bundle_id db) t
          (orch_args event_type body payload) draw.now payload db refl))

get-tasks : (id : String) (a b : Db) → b.tasks ≡ a.tasks → Tasks.get id b ≡ Tasks.get id a
unfolding Tasks.get
get-tasks id a b e = ap (find task_key id) e

-- The event changes no row, where the task is not claimed.
emit-row :
    (id : String) (event_type : EventType) (body : String) (payload : Fields) (draw : Draw)
    (db : Db) (t : Task)
    → Tasks.get id db ≡ some t
    → is_claimed t.status ≡ false
    → Tasks.get id (emit id event_type body payload draw db) ≡ some t
emit-row id event_type body payload draw db t found idle =
    get-tasks id db (emit id event_type body payload draw db)
      (emit-tasks id event_type body payload draw db t found idle)
    ∙ found

write_orch-row :
    (id : String) (b : OrchBook) (db : Db) (t : Task)
    → Tasks.get id db ≡ some t
    → Tasks.get id (write_orch id b db) ≡ some (booked b t)
unfolding write_orch Tasks.get
write_orch-row id b db t found =
    find-modify_same task_key id (λ r. if true then booked b r else r) db.tasks t (λ r. refl) found

pub update-row :
    (id : String) (f : Task → Task) (db : Db) (t : Task)
    → ((r : Task) → task_key (f r) ≡ task_key r)
    → Tasks.get id db ≡ some t
    → Tasks.get id (Tasks.update_where id (λ r. true) f db) ≡ some (f t)
unfolding Tasks.get
update-row id f db t keeps found =
    find-modify_same task_key id (λ r. if true then f r else r) db.tasks t keeps found

publish_row-tasks :
    (id : String) (found : Option Task) (now : Timestamp) (db : Db)
    → (publish_row id found now db).tasks ≡ db.tasks
unfolding publish
publish_row-tasks id none now db = refl
publish_row-tasks id (some t) now db = refl

-- The patch of a halt.
halt-update :
    (cfg : Config) (n : ℕ) (id : String) (now : Timestamp) (db : Db)
    → Tasks.update id (halt_patch cfg n) now db ≡ (
      ok (
          find task_key id
            (Tasks.update_where id (λ r. true) (apply_patch (halt_patch cfg n) now) db).tasks),
      Tasks.update_where id (λ r. true) (apply_patch (halt_patch cfg n) now) db,
    )
unfolding Tasks.update
halt-update cfg n id now db = refl

module _ (cfg : Config) (draw : Draw) (db : Db) (t : Task)
    (found : Tasks.get t.id db ≡ some t) where
  pub accept-row :
      (b : OrchBook)
      → is_claimed t.status ≡ false
      → Tasks.get t.id (accept cfg t b draw db)
        ≡ some (booked (record b { accepted_at = some draw.now }) t)
  unfolding accept
  accept-row b idle =
      emit-row t.id milestone _ _ draw
        (write_orch t.id (record b { accepted_at = some draw.now }) db)
        (booked (record b { accepted_at = some draw.now }) t)
        (write_orch-row t.id (record b { accepted_at = some draw.now }) db t found) idle

  pub defer-row :
      (b : OrchBook)
      → is_claimed t.status ≡ false
      → Tasks.get t.id (defer t b draw db) ≡ some (booked (record b { awaiting_brain = true }) t)
  unfolding defer
  defer-row b idle =
      emit-row t.id log _ _ draw (write_orch t.id (record b { awaiting_brain = true }) db)
        (booked (record b { awaiting_brain = true }) t)
        (write_orch-row t.id (record b { awaiting_brain = true }) db t found) idle

  pub escalate-row :
      (b : OrchBook)
      → is_claimed t.status ≡ false
      → Tasks.get t.id (escalate t b draw db) ≡ some (booked (record b { report_invalid = true }) t)
  unfolding escalate
  escalate-row b idle =
      emit-row t.id needs_human _ _ draw (write_orch t.id (record b { report_invalid = true }) db)
        (booked (record b { report_invalid = true }) t)
        (write_orch-row t.id (record b { report_invalid = true }) db t found) idle

  pub halt-row :
      (b : OrchBook)
      → Tasks.get t.id (halt cfg t b draw db)
        ≡ some (
            apply_patch
              (halt_patch cfg b.respawns)
              draw.now
              (booked (record b { halted = true }) t))
  unfolding halt
  halt-row b =
      let b' = record b { halted = true } in
      let db1 = write_orch t.id b' db in
      let f = apply_patch (halt_patch cfg b.respawns) draw.now in
      let db2 = Tasks.update_where t.id (λ r. true) f db1 in
      let row2 =
        update-row t.id f db1 (booked b' t) (λ r. refl) (write_orch-row t.id b' db t found) in
      let row3 =
        get-tasks t.id db2 (publish_row t.id (find task_key t.id db2.tasks) draw.now db2)
          (publish_row-tasks t.id (find task_key t.id db2.tasks) draw.now db2)
        ∙ row2 in
      rw (halt-update cfg b.respawns t.id draw.now db1) (
        emit-row t.id blocker _ _ draw
          (publish_row t.id (find task_key t.id db2.tasks) draw.now db2) (f (booked b' t)) row3
          refl)

  pub respawn-row :
      (runtime_id : String) (b : OrchBook)
      → Tasks.get t.id (respawn cfg t runtime_id b draw db)
        ≡ some (
            Tasks.reopened draw.now
              (booked (record b { respawns = b.respawns + 1; last_respawn_at = some draw.now }) t))
  unfolding respawn Tasks.reopen_for_rerun
  respawn-row runtime_id b =
      let b' = record b { respawns = b.respawns + 1; last_respawn_at = some draw.now } in
      let db1 = write_orch t.id b' db in
      let db2 = Tasks.update_where t.id (λ r. true) (Tasks.reopened draw.now) db1 in
      let row2 =
        update-row t.id (Tasks.reopened draw.now) db1 (booked b' t) (λ r. refl)
          (write_orch-row t.id b' db t found) in
      let row3 =
        get-tasks t.id db2 (publish_row t.id (Tasks.get t.id db2) draw.now db2)
          (publish_row-tasks t.id (Tasks.get t.id db2) draw.now db2)
        ∙ row2 in
      emit-row t.id log _ _ draw (publish_row t.id (Tasks.get t.id db2) draw.now db2)
        (Tasks.reopened draw.now (booked b' t)) row3 refl
