-- ===== src/TaskService/Single/Calm.antt =====
-- The task service's operations beside the claim (src/krewhub/services/task_service.py) leave the
-- bundles alone and change the tasks quietly: no agent comes to hold a task by them.
use krewhub.Prelude.{
  String, ◌≡◌, refl, ◌∙◌, Bool, true, false, Option, none, some, List, [], ◌∷◌, ◌++◌, arith,
  Bool-cases, Option-cases, inl, inr, if◌then◌else◌,
}
use krewhub.Prelude.Table.{find, delete}
use krewhub.Models.{Task, Timestamp}
use krewhub.Models.Status.{is_open}
use krewhub.Db.{Db, Outcome, ok, err, continue, ◌>>=◌, ◌>>◌, write, return, publish}
use krewhub.Db.Tasks
use krewhub.Db.Tasks.{
  task_key, holds, list_active_by_agent, apply_patch, sets_something, TaskPatch, no_patch,
}
use krewhub.TaskService.{publish_task_update}
use krewhub.TaskService.Lifecycle.{
  mark_done, mark_blocked, cancel_task, add_task, new_task, publish_added, announce_deleted,
  edit_task, remove_task, is_cancellable, update_and_publish,
}
use krewhub.TaskService.Single.{Quiet, same, patch, remove, add}

-- An operation that leaves the bundles alone and changes the tasks quietly.
abbrev pub Calm : Db → Db → Type 0
Calm db db' = (db'.bundles ≡ db.bundles) × Quiet db.tasks db'.tasks

publish_task_update-tables :
    (now : Timestamp) (t : Task) (db : Db)
    → ((publish_task_update now t db).tasks ≡ db.tasks)
      × ((publish_task_update now t db).bundles ≡ db.bundles)
unfolding publish_task_update publish
publish_task_update-tables now t db = ground arith

after_update :
    (now : Timestamp) (r : Outcome (Option Task)) (db : Db)
    → let db' =
        (continue r
          (λ updated.
            write (λ db. elim updated [ none ↦ db | some t ↦ publish_task_update now t db ])
            >> return updated)
          db).1 in
      (db'.tasks ≡ db.tasks) × (db'.bundles ≡ db.bundles)
after_update now (ok none) db = (refl, refl)
after_update now (ok (some t)) db = publish_task_update-tables now t db
after_update now (err e) db = (refl, refl)

-- Publishing leaves the tables that the update wrote.
update_and_publish-tables :
    (task_id : String) (p : TaskPatch) (now : Timestamp) (db : Db)
    → ((update_and_publish task_id p now db).1.tasks ≡ (Tasks.update task_id p now db).1.tasks)
      × ((update_and_publish task_id p now db).1.bundles
          ≡ (Tasks.update task_id p now db).1.bundles)
unfolding update_and_publish
update_and_publish-tables task_id p now db =
    after_update now (Tasks.update task_id p now db).0 (Tasks.update task_id p now db).1

-- So its effect is quiet where the update's is.
pub update_and_publish-Calm :
    (task_id : String) (p : TaskPatch) (now : Timestamp) (db : Db)
    → Calm db (Tasks.update task_id p now db).1
    → Calm db (update_and_publish task_id p now db).1
update_and_publish-Calm task_id p now db h =
    let (tasks, bundles) = update_and_publish-tables task_id p now db in
    (bundles ∙ h.0, rw tasks h.1)

pub mark_done-Calm :
    (task_id : String) (now : Timestamp) (db : Db) → Calm db (mark_done task_id now db).1
unfolding mark_done Tasks.update
mark_done-Calm task_id now db = elim (Option-cases (Tasks.get task_id db)) [
  | inl missing ↦ rw (missing, mark_done) (refl, same)
  | inr (t, found) ↦
      rw (found, mark_done)
        (update_and_publish-Calm task_id _ now db (
          refl,
          patch task_id _ (record {
            keeps_id = λ t. refl;
            keeps_bundle = λ t. refl;
            no_claim = λ a t _ h. ground arith;
          }),
        ))
]

pub mark_blocked-Calm :
    (task_id reason : String) (now : Timestamp) (db : Db)
    → Calm db (mark_blocked task_id reason now db).1
unfolding mark_blocked Tasks.update
mark_blocked-Calm task_id reason now db = elim (Option-cases (Tasks.get task_id db)) [
  | inl missing ↦ rw (missing, mark_blocked) (refl, same)
  | inr (t, found) ↦
      rw (found, mark_blocked)
        (update_and_publish-Calm task_id _ now db (
          refl,
          patch task_id _ (record {
            keeps_id = λ t. refl;
            keeps_bundle = λ t. refl;
            no_claim = λ a t _ h. ground arith;
          }),
        ))
]

pub Calm-if {ℓ} :
    {A : Type ℓ} (db : Db) (b : Bool) (m n : A × Db)
    → Calm db m.1
    → Calm db n.1
    → Calm db (if b then m else n).1
Calm-if db true m n km kn = km
Calm-if db false m n km kn = kn

pub cancel_task-Calm :
    (task_id : String) (now : Timestamp) (db : Db) → Calm db (cancel_task task_id now db).1
unfolding cancel_task Tasks.update
cancel_task-Calm task_id now db = elim (Option-cases (Tasks.get task_id db)) [
  | inl missing ↦ rw (missing, cancel_task) (refl, same)
  | inr (t, found) ↦
      rw (found, cancel_task)
        (Calm-if db (is_cancellable t.status) _ _
          (update_and_publish-Calm task_id _ now db (
            refl,
            patch task_id _ (record {
              keeps_id = λ t. refl;
              keeps_bundle = λ t. refl;
              no_claim = λ a t _ h. ground arith;
            }),
          ))
          (refl, same))
]

-- An edit of nothing is no statement at all.
pub edit-Calm :
    (task_id : String) (title description : Option String) (deps : Option (List String))
    (now : Timestamp) (db : Db)
    → Calm db
        (Tasks.update task_id
          (record no_patch { title = title; description = description; depends_on_task_ids = deps })
          now
          db).1
unfolding Tasks.update
edit-Calm task_id none none none now db = (refl, same)
edit-Calm task_id (some x) d e now db = (
  refl,
  patch task_id _
      (record { keeps_id = λ t. refl; keeps_bundle = λ t. refl; no_claim = λ a t _ h. h }),
)
edit-Calm task_id none (some x) e now db = (
  refl,
  patch task_id _
      (record { keeps_id = λ t. refl; keeps_bundle = λ t. refl; no_claim = λ a t _ h. h }),
)
edit-Calm task_id none none (some x) now db = (
  refl,
  patch task_id _
      (record { keeps_id = λ t. refl; keeps_bundle = λ t. refl; no_claim = λ a t _ h. h }),
)

pub edit_task-Calm :
    (task_id : String) (title description : Option String) (deps : Option (List String))
    (now : Timestamp) (db : Db)
    → Calm db (edit_task task_id title description deps now db).1
unfolding edit_task
edit_task-Calm task_id title description deps now db =
    update_and_publish-Calm task_id _ now db (edit-Calm task_id title description deps now db)

pub reopen-Calm :
    (task_id : String) (now : Timestamp) (db : Db)
    → Calm db (Tasks.reopen_for_rerun task_id now db).1
unfolding Tasks.reopen_for_rerun
reopen-Calm task_id now db = (
  refl,
  patch task_id _ (record {
    keeps_id = λ t. refl;
    keeps_bundle = λ t. refl;
    no_claim = λ a t _ h. ground arith;
  }),
)

pub deleted-Calm :
    (task_id : String) (t : Task) (now : Timestamp) (db : Db) (gone : Bool)
    → let db' = record db { tasks = delete task_key task_id db.tasks } in
      Calm db (announce_deleted task_id t now gone db').1
deleted-Calm task_id t now db true = (refl, remove task_id)
deleted-Calm task_id t now db false = (refl, remove task_id)

delete_task-Calm :
    (task_id : String) (t : Task) (now : Timestamp) (db : Db)
    → Calm db ((Tasks.delete_task task_id >>= announce_deleted task_id t now) db).1
unfolding Tasks.delete_task
delete_task-Calm task_id t now db = elim (Bool-cases (Tasks.has_usage task_id db)) [
  | inl used ↦ rw used (refl, same)
  | inr free ↦ rw free (deleted-Calm task_id t now db _)
]

pub remove_task-Calm :
    (task_id : String) (now : Timestamp) (db : Db) → Calm db (remove_task task_id now db).1
unfolding remove_task
remove_task-Calm task_id now db = elim (Option-cases (Tasks.get task_id db)) [
  | inl missing ↦ rw (missing, remove_task) (refl, same)
  | inr (t, found) ↦
      rw (found, remove_task)
        (Calm-if db (is_open t.status) _ _ (delete_task-Calm task_id t now db) (refl, same))
]

not_taken : (t : Task) (db : Db) → Tasks.violates t db ≡ false → find task_key t.id db.tasks ≡ none
not_taken t db h = ground arith

publish_added-tables :
    (now : Timestamp) (t : Task) (db : Db)
    → ((publish_added now t db).tasks ≡ db.tasks) × ((publish_added now t db).bundles ≡ db.bundles)
unfolding publish
publish_added-tables now t db = ground arith

pub add-Calm :
    (id bundle_id title : String) (description : Option String) (deps : List String)
    (now : Timestamp) (db : Db) (bad : Bool)
    → Tasks.violates (new_task id bundle_id title description deps) db ≡ bad
    → Calm db (add_task id bundle_id title description deps now db).1
unfolding add_task Tasks.create
add-Calm id bundle_id title description deps now db true bad = rw (bad, add_task) (refl, same)
add-Calm id bundle_id title description deps now db false good =
    rw (good, add_task)
      (let t = new_task id bundle_id title description deps in
        let (tasks, bundles) =
          publish_added-tables now (record t { updated_at = some now })
            (record db { tasks = db.tasks ++ Tasks.inserted t now ∷ [] }) in
        (bundles, rw tasks (add (Tasks.inserted t now) (not_taken t db good) refl)))

pub add_task-Calm :
    (id bundle_id title : String) (description : Option String) (deps : List String)
    (now : Timestamp) (db : Db)
    → Calm db (add_task id bundle_id title description deps now db).1
unfolding add_task Tasks.create
add_task-Calm id bundle_id title description deps now db =
    add-Calm id bundle_id title description deps now db _ refl
