-- ===== src/TaskService/Lifecycle.antt =====
-- src/krewhub/services/task_service.py: finishing, blocking, cancelling, adding, editing and removing
-- a task.
use krewhub.Prelude.{String, Bool, true, false, Option, none, some, List, if◌then◌else◌}
use krewhub.Models.{Task, Timestamp}
use krewhub.Models.JsonData.{empty_dict}
use krewhub.Models.Status
use krewhub.Models.Status.{
  TaskStatus, EventType, task_working, ActorType, WatchEventType, added, modified, deleted, is_open,
  is_done, event_type_value,
}
use krewhub.Watch.Channels.{task}
use krewhub.Watch.Service.{record_mutation}
use krewhub.Db.{Db, Act, ok, return, write, ◌>>=◌, ◌>>◌, publish}
use krewhub.Db.Tasks
use krewhub.Db.Tasks.{no_patch}
use krewhub.Db.Bundles
use krewhub.TaskService.{publish_task_update}

-- The tail that the lifecycle operations share: update, then publish under the bundle's cookbook.
unfoldable pub update_and_publish : String → Tasks.TaskPatch → Timestamp → Act (Option Task)
update_and_publish task_id patch now = do
  updated ← Tasks.update task_id patch now
  write (λ db. elim updated [ none ↦ db | some t ↦ publish_task_update now t db ])
  return updated

unfoldable pub mark_done : String → Timestamp → Act (Option Task)
mark_done task_id now db = elim (Tasks.get task_id db) [
  | none ↦ (ok none, db)
  | some t ↦
      update_and_publish task_id
        (record no_patch {
          status = some Status.done;
          completed_at = some now;
          clear_blocked_reason = true;
        })
        now db
]

unfoldable pub mark_blocked : String → String → Timestamp → Act (Option Task)
mark_blocked task_id reason now db = elim (Tasks.get task_id db) [
  | none ↦ (ok none, db)
  | some t ↦
      update_and_publish task_id
        (record no_patch { status = some Status.blocked; blocked_reason = some reason }) now db
]

abbrev pub is_cancellable : TaskStatus → Bool
is_cancellable TaskStatus.opened = true
is_cancellable TaskStatus.claimed = true
is_cancellable TaskStatus.working = true
is_cancellable _ = false

unfoldable pub cancel_task : String → Timestamp → Act (Option Task)
cancel_task task_id now db = elim (Tasks.get task_id db) [
  | none ↦ (ok none, db)
  | some t ↦
      if is_cancellable t.status
      then update_and_publish task_id
          (record no_patch { status = some Status.cancelled; clear_blocked_reason = true }) now db
      else (ok none, db)
]

-- A task with the defaults of the model.
abbrev pub new_task : String → String → String → Option String → List String → Task
new_task id bundle_id title description deps = record {
  id = id;
  bundle_id = bundle_id;
  title = title;
  description = description;
  status = Status.opened;
  depends_on_task_ids = deps;
  assigned_agent_id = none;
  claimed_by_agent_id = none;
  claimed_at = none;
  completed_at = none;
  blocked_reason = none;
  graph_node_id = none;
  resource_version = 1;
  generation = 1;
  progress = none;
  session_id = none;
  work_dir = none;
  artifacts = empty_dict;
  session_token = none;
  assigned_runtime_id = none;
  sandbox_id = none;
  brief = none;
  report = none;
  orch = none;
  created_by_task = none;
  updated_at = none;
}

abbrev pub publish_added : Timestamp → Task → Db → Db
publish_added now t db = elim (Bundles.get t.bundle_id db) [
  | none ↦ db
  | some b ↦ publish "task" t.id added (task t) b.cookbook_id now db
]

unfoldable pub add_task :
    String → String → String → Option String → List String → Timestamp → Act Task
unfolding Bundles.get
add_task id bundle_id title description deps now = do
  created ← Tasks.create (new_task id bundle_id title description deps) now
  write (publish_added now created)
  return created

unfoldable pub edit_task :
    String → Option String → Option String → Option (List String) → Timestamp → Act (Option Task)
edit_task task_id title description deps now =
    update_and_publish task_id
      (record no_patch { title = title; description = description; depends_on_task_ids = deps }) now

abbrev pub publish_deleted : String → Task → Timestamp → Db → Db
publish_deleted task_id t now db = record db {
  watch =
      (record_mutation
        (record {
          resource_type = "task";
          resource_id = task_id;
          event_type = deleted;
          resource_version = t.resource_version;
          payload = task t;
          cookbook_id = elim (Bundles.get t.bundle_id db) [ none ↦ none | some b ↦ b.cookbook_id ];
          now = now;
        })
        db.watch).1;
}

abbrev pub announce_deleted : String → Task → Timestamp → Bool → Act Bool
announce_deleted task_id t now gone db =
    (ok gone, if gone then publish_deleted task_id t now db else db)

unfoldable pub remove_task : String → Timestamp → Act Bool
unfolding Bundles.get
remove_task task_id now db = elim (Tasks.get task_id db) [
  | none ↦ (ok false, db)
  | some t ↦
      if is_open t.status
      then (Tasks.delete_task task_id >>= announce_deleted task_id t now) db
      else (ok false, db)
]
