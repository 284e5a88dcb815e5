-- ===== src/TaskService/Single/Requests.antt =====
-- The requests that the task service serves (src/krewhub/services/task_service.py), the claim as
-- the route of src/krewhub/routes/tasks.py asks for it, and the reopening that the controllers do
-- by src/krewhub/repositories/task_repo.py. Whatever they are, an agent never holds two active
-- tasks of a cookbook.
use krewhub.Prelude.{ℕ, ◌≤◌, String, Option, some, List, [], ◌∷◌, length}
use krewhub.Models.{Timestamp}
use krewhub.Db.{Db}
use krewhub.Db.Tasks
use krewhub.Db.Tasks.{
  task_key, holds, list_active_by_agent, apply_patch, sets_something, TaskPatch, no_patch,
}
use krewhub.TaskService.Lifecycle.{
  mark_done, mark_blocked, cancel_task, add_task, edit_task, remove_task,
}
use krewhub.TaskService.Posting.{PostArgs, EventSpec, post_event, post_events_batch}
use krewhub.TaskService.Single.{IsSingle, Quiet-IsSingle, IsSingle-list_active_by_agent}
use krewhub.TaskService.Single.Calm.{
  Calm, mark_done-Calm, mark_blocked-Calm, cancel_task-Calm, add_task-Calm, edit_task-Calm,
  remove_task-Calm, reopen-Calm,
}
use krewhub.TaskService.Single.Posts.{post_event-Calm, post_events_batch-Calm}
use krewhub.TaskService.Single.Claims.{claim_request, claim_request-IsSingle}

pub data Request : Type 0 where
  claim : String → String → String → Timestamp → Request
  post : String → PostArgs → Option String → String → String → Timestamp → Request
  post_batch : String → List EventSpec → Option String → String → (ℕ → String) → Timestamp → Request
  finish : String → Timestamp → Request
  block : String → String → Timestamp → Request
  cancel : String → Timestamp → Request
  create : String → String → String → Option String → List String → Timestamp → Request
  edit : String → Option String → Option String → Option (List String) → Timestamp → Request
  drop : String → Timestamp → Request
  reopen : String → Timestamp → Request

-- What the request leaves, whether it returned or raised.
unfoldable pub serve : Request → Db → Db
serve (claim task_id agent_id evt_id now) db = claim_request task_id agent_id evt_id now db
serve (post task_id args token working_id id now) db =
    (post_event task_id args token working_id id now db).1
serve (post_batch task_id specs token working_id ids now) db =
    (post_events_batch task_id specs token working_id ids now db).1
serve (finish task_id now) db = (mark_done task_id now db).1
serve (block task_id reason now) db = (mark_blocked task_id reason now db).1
serve (cancel task_id now) db = (cancel_task task_id now db).1
serve (create id bundle_id title description deps now) db =
    (add_task id bundle_id title description deps now db).1
serve (edit task_id title description deps now) db =
    (edit_task task_id title description deps now db).1
serve (drop task_id now) db = (remove_task task_id now db).1
serve (reopen task_id now) db = (Tasks.reopen_for_rerun task_id now db).1

unfoldable pub serve_all : List Request → Db → Db
serve_all [] db = db
serve_all (r ∷ rs) db = serve_all rs (serve r db)

calm : (db db' : Db) → Calm db db' → IsSingle db.bundles db.tasks → IsSingle db'.bundles db'.tasks
calm db db' k h = rw k.0 (Quiet-IsSingle db.bundles k.1 h)

-- Every request of the task service keeps the invariant that ids are unique and that for each
-- agent and cookbook all active rows are one row, whether it succeeds, returns None or raises.
pub serve-IsSingle :
    (r : Request) (db : Db)
    → IsSingle db.bundles db.tasks
    → IsSingle (serve r db).bundles (serve r db).tasks
unfolding serve
serve-IsSingle (claim task_id agent_id evt_id now) db h =
    claim_request-IsSingle task_id agent_id evt_id now db h
serve-IsSingle (post task_id args token working_id id now) db h =
    calm db (post_event task_id args token working_id id now db).1
      (post_event-Calm task_id args token working_id id now db) h
serve-IsSingle (post_batch task_id specs token working_id ids now) db h =
    calm db (post_events_batch task_id specs token working_id ids now db).1
      (post_events_batch-Calm task_id specs token working_id ids now db) h
serve-IsSingle (finish task_id now) db h =
    calm db (mark_done task_id now db).1 (mark_done-Calm task_id now db) h
serve-IsSingle (block task_id reason now) db h =
    calm db (mark_blocked task_id reason now db).1 (mark_blocked-Calm task_id reason now db) h
serve-IsSingle (cancel task_id now) db h =
    calm db (cancel_task task_id now db).1 (cancel_task-Calm task_id now db) h
serve-IsSingle (create id bundle_id title description deps now) db h =
    calm db (add_task id bundle_id title description deps now db).1
      (add_task-Calm id bundle_id title description deps now db) h
serve-IsSingle (edit task_id title description deps now) db h =
    calm db (edit_task task_id title description deps now db).1
      (edit_task-Calm task_id title description deps now db) h
serve-IsSingle (drop task_id now) db h =
    calm db (remove_task task_id now db).1 (remove_task-Calm task_id now db) h
serve-IsSingle (reopen task_id now) db h =
    calm db (Tasks.reopen_for_rerun task_id now db).1 (reopen-Calm task_id now db) h

serve_all-IsSingle :
    (rs : List Request) (db : Db)
    → IsSingle db.bundles db.tasks
    → IsSingle (serve_all rs db).bundles (serve_all rs db).tasks
unfolding serve_all
serve_all-IsSingle [] db h = h
serve_all-IsSingle (r ∷ rs) db h = serve_all-IsSingle rs (serve r db) (serve-IsSingle r db h)

-- From tables that satisfy the invariant (ids are unique, and for each agent and cookbook all
-- active rows are one row), after any requests of the task service, an agent has at most one
-- claimed or working task in each cookbook.
pub one_active_task :
    (rs : List Request) (db : Db) (cookbook_id agent_id : String)
    → IsSingle db.bundles db.tasks
    → length (list_active_by_agent (some cookbook_id) agent_id (serve_all rs db)) ≤ 1
one_active_task rs db cookbook_id agent_id h =
    IsSingle-list_active_by_agent (serve_all rs db) cookbook_id agent_id
      (serve_all-IsSingle rs db h)
