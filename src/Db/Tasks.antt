-- ===== src/Db/Tasks.antt =====
-- src/krewhub/repositories/task_repo.py: the tasks table, in the order of its rowids.
pub mod Versions
use krewhub.Prelude.{
  ℕ, ◌+◌, String, Bool, true, false, Option, none, some, ◌&&◌, ◌||◌, List, [], ◌∷◌, ◌++◌, nat_eq,
  not, any, filter, if◌then◌else◌, ◌==◌,
}
use krewhub.Prelude.Table.{find, modify, delete}
use krewhub.Models.{Task, Timestamp}
use krewhub.Models.JsonData.{empty_dict}
use krewhub.Models.Status.{TaskStatus, opened, is_open, is_active}
use krewhub.Db.{Db, Act, ok, err, stale_resource, integrity_error}
use krewhub.Db.Bundles.{bundle_key, in_cookbook, set_some}

abbrev pub task_key : Task → String
task_key t = t.id

unfoldable pub get : String → Db → Option Task
get task_id db = find task_key task_id db.tasks

abbrev is_some {ℓ} : {A : Type ℓ} → Option A → Bool
is_some none = false
is_some (some a) = true

-- The INSERT names fifteen columns; the others of the row are NULL, whatever the model holds.
abbrev pub inserted : Task → Timestamp → Task
inserted t now = record t {
  progress = none;
  session_id = none;
  work_dir = none;
  artifacts = empty_dict;
  session_token = none;
  assigned_runtime_id = none;
  sandbox_id = none;
  brief = none;
  report = none;
  orch = none;
  created_by_task = none;
  updated_at = some now;
}

-- The primary key and the reference to a bundle are constraints of the table.
abbrev pub violates : Task → Db → Bool
violates t db =
    is_some (find task_key t.id db.tasks) || not (is_some (find bundle_key t.bundle_id db.bundles))

unfoldable pub create : Task → Timestamp → Act Task
create t now db = if violates t db then (err integrity_error, db) else (
  ok (record t { updated_at = some now }),
  record db { tasks = db.tasks ++ inserted t now ∷ [] },
)

unfoldable pub list_by_bundle : String → Db → List Task
list_by_bundle bundle_id db = filter (λ t. t.bundle_id == bundle_id) db.tasks

-- JOIN bundles b ON t.bundle_id = b.id WHERE b.cookbook_id = ?
abbrev pub joined_cookbook : String → Db → Task → Bool
joined_cookbook cookbook_id db t = elim (find bundle_key t.bundle_id db.bundles) [
  | none ↦ false
  | some b ↦ in_cookbook cookbook_id b
]

unfoldable pub list_open_by_cookbook : String → Db → List Task
list_open_by_cookbook cookbook_id db =
    filter
      (λ t. joined_cookbook cookbook_id db t && is_open t.status && not (is_some t.graph_node_id))
      db.tasks

abbrev pub is_text : Option String → String → Bool
is_text none s = false
is_text (some r) s = r == s

-- claimed_by_agent_id = ? AND status IN ('claimed', 'working')
abbrev pub holds : String → Task → Bool
holds agent_id t = is_text t.claimed_by_agent_id agent_id && is_active t.status

unfoldable pub list_active_by_agent : Option String → String → Db → List Task
list_active_by_agent none agent_id db = filter (holds agent_id) db.tasks
list_active_by_agent (some cookbook_id) agent_id db =
    filter (λ t. joined_cookbook cookbook_id db t && holds agent_id t) db.tasks

unfoldable pub list_assigned_unclaimed_by_agent : String → String → Db → List Task
list_assigned_unclaimed_by_agent cookbook_id agent_id db =
    filter
      (λ t.
        joined_cookbook cookbook_id db t
        && is_text t.assigned_agent_id agent_id
        && is_open t.status
        && not (is_some t.claimed_by_agent_id))
      db.tasks

-- The keyword arguments of TaskRepo.update.
pub record TaskPatch : Type 0 where
  pub title : Option String
  pub description : Option String
  pub status : Option TaskStatus
  pub assigned_agent_id : Option String
  pub claimed_by_agent_id : Option String
  pub claimed_at : Option Timestamp
  pub completed_at : Option Timestamp
  pub blocked_reason : Option String
  pub clear_blocked_reason : Bool
  pub clear_claim : Bool
  pub depends_on_task_ids : Option (List String)
  pub expected_version : Option ℕ

-- Their defaults.
abbrev pub no_patch : TaskPatch
no_patch = record {
  title = none;
  description = none;
  status = none;
  assigned_agent_id = none;
  claimed_by_agent_id = none;
  claimed_at = none;
  completed_at = none;
  blocked_reason = none;
  clear_blocked_reason = false;
  clear_claim = false;
  depends_on_task_ids = none;
  expected_version = none;
}

abbrev or_old {ℓ} : {A : Type ℓ} → Option A → A → A
or_old none old = old
or_old (some a) old = a

abbrev pub spec_changed : TaskPatch → Bool
spec_changed p =
    is_some p.title
    || is_some p.description
    || is_some p.depends_on_task_ids
    || is_some p.assigned_agent_id

-- `len(parts) > 1`: some column beside resource_version is set.
abbrev pub sets_something : TaskPatch → Bool
sets_something p =
    spec_changed p
    || is_some p.status
    || p.clear_claim
    || is_some p.claimed_by_agent_id
    || is_some p.claimed_at
    || is_some p.completed_at
    || p.clear_blocked_reason
    || is_some p.blocked_reason

-- Of a column that a statement sets twice, SQLite keeps the later assignment.
abbrev pub apply_patch : TaskPatch → Timestamp → Task → Task
apply_patch p now t = record t {
  resource_version = t.resource_version + 1;
  title = or_old p.title t.title;
  description = set_some p.description t.description;
  status = or_old p.status t.status;
  assigned_agent_id =
      if p.clear_claim then none else set_some p.assigned_agent_id t.assigned_agent_id;
  claimed_by_agent_id =
      set_some p.claimed_by_agent_id (if p.clear_claim then none else t.claimed_by_agent_id);
  claimed_at = set_some p.claimed_at (if p.clear_claim then none else t.claimed_at);
  completed_at = set_some p.completed_at t.completed_at;
  blocked_reason =
      if p.clear_blocked_reason then none else set_some p.blocked_reason t.blocked_reason;
  depends_on_task_ids = or_old p.depends_on_task_ids t.depends_on_task_ids;
  generation = if spec_changed p then t.generation + 1 else t.generation;
  updated_at = some now;
}

abbrev pub version_ok : Option ℕ → ℕ → Bool
version_ok none v = true
version_ok (some expected) v = nat_eq v expected

abbrev pub update_where : String → (Task → Bool) → (Task → Task) → Db → Db
update_where task_id hit f db = record db {
  tasks = modify task_key task_id (λ t. if hit t then f t else t) db.tasks;
}

-- What follows the UPDATE: a rowcount of 0 under an expected version is a conflict or a missing row.
abbrev pub update_result : String → Bool → Option ℕ → Act (Option Task)
update_result task_id touched none db = (ok (find task_key task_id db.tasks), db)
update_result task_id true (some v) db = (ok (find task_key task_id db.tasks), db)
update_result task_id false (some v) db = elim (find task_key task_id db.tasks) [
  | some existing ↦ (err stale_resource, db)
  | none ↦ (ok none, db)
]

unfoldable pub update : String → TaskPatch → Timestamp → Act (Option Task)
update task_id p now db =
    if not (sets_something p)
    then (ok (find task_key task_id db.tasks), db)
    else update_result task_id
        (any (λ t. (t.id == task_id) && version_ok p.expected_version t.resource_version) db.tasks)
        p.expected_version
        (update_where task_id (λ t. version_ok p.expected_version t.resource_version)
          (apply_patch p now) db)

-- A row of task_usage refers to the task.
abbrev pub has_usage : String → Db → Bool
has_usage task_id db = any (λ i. i == task_id) db.task_usage

-- The rowcount is positive where a row had the id.
unfoldable pub delete_task : String → Act Bool
delete_task task_id db = if has_usage task_id db then (err integrity_error, db) else (
  ok (is_some (find task_key task_id db.tasks)),
  record db { tasks = delete task_key task_id db.tasks },
)

abbrev pub reopened : Timestamp → Task → Task
reopened now t = record t {
  status = opened;
  assigned_agent_id = none;
  claimed_by_agent_id = none;
  claimed_at = none;
  completed_at = none;
  blocked_reason = none;
  resource_version = t.resource_version + 1;
  updated_at = some now;
}

unfoldable pub reopen_for_rerun : String → Timestamp → Db → Option Task × Db
unfolding get
reopen_for_rerun task_id now db =
    let db' = update_where task_id (λ t. true) (reopened now) db in (get task_id db', db')

unfoldable pub set_session_token : String → String → Db → Db
set_session_token task_id token =
    update_where task_id (λ t. not (is_some t.session_token))
      (λ t. record t { session_token = some token })

-- Later rows of the same node replace earlier ones, as in the dict comprehension.
abbrev dict_set : String → String → List (String × String) → List (String × String)
dict_set k v [] = (k, v) ∷ []
dict_set k v ((j, w) ∷ d) =
    let rest = dict_set k v d in if j == k then (j, v) ∷ d else (j, w) ∷ rest

abbrev node_ids : List Task → List (String × String) → List (String × String)
node_ids [] d = d
node_ids (t ∷ rows) d =
    node_ids rows (elim t.graph_node_id [ none ↦ d | some n ↦ dict_set n t.id d ])

unfoldable pub build_node_id_map : String → Db → List (String × String)
build_node_id_map bundle_id db = node_ids (filter (λ t. t.bundle_id == bundle_id) db.tasks) []
