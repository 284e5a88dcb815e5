-- ===== src/TaskService.antt =====
-- src/krewhub/services/task_service.py, with src/krewhub/services/event_visibility.py. An event's id
-- and each reading of the clock are arguments.
pub mod Visibility
pub mod Claim
pub mod Lifecycle
pub mod Posting
pub mod Sessions
pub mod Single
use Prim.Native.String.{◌++◌ as append}
use krewhub.Prelude.{
  ℕ, suc, String, Bool, true, false, Option, none, some, ◌&&◌, ◌||◌, List, [], ◌∷◌, ◌++◌, not, all,
  if◌then◌else◌, ◌==◌,
}
use krewhub.Models.{Bundle, Task, Event, FactRef, CodeRef, Timestamp}
use krewhub.Models.JsonData.{Fields, empty_dict}
use krewhub.Models.Status
use krewhub.Models.Status.{
  TaskStatus, EventType, task_working, ActorType, WatchEventType, added, modified, deleted, is_open,
  is_done, event_type_value,
}
use krewhub.Watch.Channels.{task, event}
use krewhub.Watch.Service.{record_mutation}
use krewhub.Db.{
  Db, Act, Outcome, ok, err, session_token_mismatch, value_error, validation_error, return, raise,
  gets, write, continue, ◌>>=◌, ◌>>◌, publish,
}
use krewhub.Db.Tasks
use krewhub.Db.Tasks.{no_patch}
use krewhub.Db.Bundles
use krewhub.Db.Events
use Visibility.{classify_visibility}

-- `not session_token`
abbrev pub is_blank : Option String → Bool
is_blank none = true
is_blank (some s) = s == ""

abbrev pub text_of : Option String → String
text_of none = ""
text_of (some s) = s

abbrev pub stamp_or_compare : String → Task → String → Act (Unit {0})
stamp_or_compare task_id t token db = elim t.session_token [
  | none ↦ (ok tt, Tasks.set_session_token task_id token db)
  | some stamped ↦ if stamped == token then (ok tt, db) else (err session_token_mismatch, db)
]

unfoldable pub check_and_stamp_session_token : String → Option String → Act (Unit {0})
unfolding Tasks.get
check_and_stamp_session_token task_id session_token db =
    if is_blank session_token then (ok tt, db) else elim (Tasks.get task_id db) [
      | none ↦ (ok tt, db)
      | some t ↦ stamp_or_compare task_id t (text_of session_token) db
    ]

-- bundle.cookbook_id if bundle else None
unfoldable pub cookbook_id_for_bundle : String → Db → Option String
unfolding Bundles.get
cookbook_id_for_bundle bundle_id db = elim (Bundles.get bundle_id db) [
  | none ↦ none
  | some b ↦ b.cookbook_id
]

unfoldable pub publish_task_update : Timestamp → Task → Db → Db
unfolding Bundles.get
publish_task_update now t db = elim (Bundles.get t.bundle_id db) [
  | none ↦ db
  | some b ↦ publish "task" t.id modified (task t) b.cookbook_id now db
]

-- An event as most callers make it: no facts, no code, the defaults of the model elsewhere.
abbrev pub plain_event :
    String → Option String → Task → EventType → String → ActorType → String → Timestamp → Event
plain_event id cookbook_id t type actor_id actor_type body now = record {
  id = id;
  cookbook_id = cookbook_id;
  bundle_id = some t.bundle_id;
  task_id = some t.id;
  type = type;
  actor_id = actor_id;
  actor_type = actor_type;
  body = body;
  sequence = 0;
  facts = [];
  code_refs = [];
  payload = empty_dict;
  visibility = "system";
  created_at = now;
  expires_at = none;
}

-- A dependency counts where its row is there and done.
abbrev pub dep_done : Db → String → Bool
dep_done db dep_id = elim (Tasks.get dep_id db) [ none ↦ false | some dep ↦ is_done dep.status ]

abbrev pub deps_done : Db → List String → Bool
deps_done db deps = all (dep_done db) deps

abbrev pub is_empty {ℓ} : {A : Type ℓ} → List A → Bool
is_empty [] = true
is_empty (x ∷ xs) = false

-- `if updated is not None: await self._watch.record_resource(...)`
abbrev pub publish_some : Option Task → String → Option String → Timestamp → Db → Db
publish_some none task_id cookbook_id now db = db
publish_some (some t) task_id cookbook_id now db =
    publish "task" task_id modified (task t) cookbook_id now db

abbrev pub claim_patch : String → Timestamp → Tasks.TaskPatch
claim_patch agent_id now = record no_patch {
  status = some Status.claimed;
  claimed_by_agent_id = some agent_id;
  claimed_at = some now;
}

abbrev pub claim_event : String → Option String → Task → String → Timestamp → Event
claim_event evt_id cookbook_id t agent_id now =
    plain_event evt_id cookbook_id t Status.task_claimed agent_id Status.agent
      (append "Task '" (append t.title "' claimed.")) now

-- What claim_task does once its guards have passed.
unfoldable pub do_claim : String → String → String → Timestamp → Task → Act (Option Task)
unfolding cookbook_id_for_bundle
do_claim task_id agent_id evt_id now t = do
  cookbook_id ← gets (cookbook_id_for_bundle t.bundle_id)
  updated ← Tasks.update task_id (claim_patch agent_id now) now
  Events.create (claim_event evt_id cookbook_id t agent_id now)
  write (publish_some updated task_id cookbook_id now)
  return updated

-- The early returns of claim_task.
abbrev pub can_claim : Task → String → Option String → Db → Bool
can_claim t agent_id cookbook_id db =
    is_open t.status
    && is_empty (Tasks.list_active_by_agent cookbook_id agent_id db)
    && deps_done db t.depends_on_task_ids

unfoldable pub claim_task : String → String → Option String → String → Timestamp → Act (Option Task)
unfolding do_claim
claim_task task_id agent_id cookbook_id evt_id now db = elim (Tasks.get task_id db) [
  | none ↦ (ok none, db)
  | some t ↦
      if can_claim t agent_id cookbook_id db
      then do_claim task_id agent_id evt_id now t db
      else (ok none, db)
]
