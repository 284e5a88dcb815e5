-- ===== src/TaskService/Posting/Payload.antt =====
-- post_event of src/krewhub/services/task_service.py without a payload, its default: the event
-- model of src/krewhub/models/domain.py declares the payload a second time, as a dict.
use krewhub.Prelude.{String, ◌≡◌, refl, Option, none, some, Bool-cases, inl, inr, if◌then◌else◌}
use krewhub.Prelude.Table.{find, find-modify_same}
use krewhub.Models.{Task, Event, Timestamp}
use krewhub.Models.Status
use krewhub.Models.Status.{TaskStatus, ActorType, modified}
use krewhub.Watch.Channels.{task}
use krewhub.Db.{Db, ok, err, integrity_error, validation_error, publish}
use krewhub.Db.Events
use krewhub.Db.Events.{event_ids, is_used}
use krewhub.Db.Tasks
use krewhub.Db.Tasks.{task_key, no_patch, apply_patch}
use krewhub.TaskService.{check_and_stamp_session_token, cookbook_id_for_bundle}
use krewhub.TaskService.Visibility.{classify_visibility}
use krewhub.TaskService.Posting.{
  PostArgs, post_event, start_working, begin_work, note_working, working_event, add_event,
  append_event,
}

abbrev pub at_work : Task → Timestamp → Task
at_work t now = apply_patch (record no_patch { status = some Status.working }) now t

-- What the call has written of the work's start once the row was patched: an event that may clash.
add_event-row :
    (task_id : String) (e : Event) (c : Option String) (now : Timestamp) (t : Task) (db : Db)
    → Tasks.get task_id db ≡ some t
    → let r = add_event e c now db in
      (r.0 ≡ (if is_used e.id (event_ids db.events) then err integrity_error else ok tt))
      × (Tasks.get task_id r.1 ≡ some t)
unfolding publish Events.create Events.insert Tasks.get
add_event-row task_id e c now t db row = elim (Bool-cases (is_used e.id (event_ids db.events))) [
  | inl used ↦ rw used (refl, row)
  | inr fresh ↦ rw fresh (refl, row)
]

start_working_claimed :
    (task_id working_id visibility actor_id : String) (c : Option String) (a : ActorType)
    (now : Timestamp) (t : Task) (db : Db)
    → Tasks.get task_id db ≡ some t
    → t.status ≡ TaskStatus.claimed
    → let r = start_working task_id c t actor_id (some a) visibility working_id now db in
      (r.0 ≡ (if is_used working_id (event_ids db.events) then err integrity_error else ok tt))
      × (Tasks.get task_id r.1 ≡ some (at_work t now))
unfolding start_working begin_work Tasks.update Tasks.get publish
start_working_claimed task_id working_id visibility actor_id c a now t db found claimed =
    let db' = (Tasks.update task_id (record no_patch { status = some Status.working }) now db).1 in
    let row : find task_key task_id db'.tasks ≡ some (at_work t now) =
      find-modify_same task_key task_id (λ b. at_work b now) db.tasks t (λ b. refl) found in
    rw (claimed, start_working)
      (rw (row, note_working)
        (add_event-row task_id (working_event working_id c t actor_id a visibility now) c now
          (at_work t now) (publish "task" task_id modified (task (at_work t now)) c now db') row))

append_event_bare :
    (task_id id : String) (c : Option String) (t : Task) (args : PostArgs) (now : Timestamp)
    (db : Db)
    → args.payload ≡ none
    → append_event task_id c t args id now db ≡ (err validation_error, db)
unfolding append_event
append_event_bare task_id id c t args now db bare = rw (bare, append_event) refl

-- An event posted for a claimed task without a payload raises the validation error of the event's
-- model, or the integrity error where the id of the event that starts the work is used already,
-- and the task stays in the working status that the call moved it to.
pub post_event-without_payload :
    (task_id working_id id : String) (args : PostArgs) (now : Timestamp) (t : Task) (db : Db)
    → Tasks.get task_id db ≡ some t
    → t.status ≡ TaskStatus.claimed
    → args.payload ≡ none
    → let r = post_event task_id args none working_id id now db in
      (r.0
        ≡ err (
            if is_used working_id (event_ids db.events) then integrity_error else validation_error))
      × (Tasks.get task_id r.1 ≡ some (at_work t now))
unfolding post_event check_and_stamp_session_token
post_event-without_payload task_id working_id id args now t db found claimed bare =
    let c = cookbook_id_for_bundle t.bundle_id db in
    let (fine, row) =
      start_working_claimed task_id working_id (classify_visibility "task_working") args.actor_id c
        args.actor_type now t db found claimed in
    elim (Bool-cases (is_used working_id (event_ids db.events))) [
      | inl used ↦ rw (found, post_event) (rw fine (rw used (refl, row)))
      | inr fresh ↦
          rw (found, post_event)
            (rw fine (
              rw fresh (
                rw
                  (append_event_bare task_id id c t args now
                    (start_working task_id c t args.actor_id (some args.actor_type)
                      (classify_visibility "task_working") working_id now db).1
                    bare)
                  (refl, row))))
    ]
