-- ===== src/BundleService.antt =====
-- src/krewhub/services/bundle_service.py: creating a bundle, and closing and reopening it. The
-- ids that it draws and the readings of the clock are arguments.
pub mod Lifecycle
use Prim.Native.String.{◌++◌ as append}
use krewhub.Prelude.{ℕ, String, Bool, true, false, Option, none, some, List, [], ◌∷◌, if◌then◌else◌}
use krewhub.Models.{Bundle, Task, Event, Timestamp}
use krewhub.Models.JsonData.{Fields, empty_dict}
use krewhub.Models.Status
use krewhub.Models.Status.{BundleStatus, EventType, ActorType, added, modified, event_type_value}
use krewhub.Watch.Channels.{bundle, task}
use krewhub.Db.{Db, Act, ok, return, gets, write, ◌>>=◌, ◌>>◌, publish}
use krewhub.Db.Bundles
use krewhub.Db.Bundles.{is_opened, only_status}
use krewhub.Db.Tasks
use krewhub.Db.Events
use krewhub.TaskService.{is_blank, text_of}
use krewhub.TaskService.Lifecycle.{new_task}

-- An event of a bundle, with the defaults of the model elsewhere.
abbrev pub bundle_event :
    String → Option String → String → EventType → String → ActorType → String → Timestamp → Event
bundle_event id cookbook_id bundle_id type actor_id actor_type body now = record {
  id = id;
  cookbook_id = cookbook_id;
  bundle_id = some bundle_id;
  task_id = none;
  type = type;
  actor_id = actor_id;
  actor_type = actor_type;
  body = body;
  sequence = 0;
  facts = [];
  code_refs = [];
  payload = empty_dict;
  visibility = "system";
  created_at = now;
  expires_at = none;
}

abbrev pub lifecycle_body : EventType → Option String → String
lifecycle_body type reason =
    append "Bundle " (
      append (event_type_value type) (if is_blank reason then "" else append ": " (text_of reason)))

-- _emit_lifecycle_event
abbrev pub emit_lifecycle_event :
    Bundle → EventType → String → Option String → String → Timestamp → Act (Unit {0})
emit_lifecycle_event b type actor_id reason evt_id now = Events.create (
    bundle_event evt_id b.cookbook_id b.id type actor_id Status.human (lifecycle_body type reason)
      now)

-- What follows the update of the status.
abbrev pub announce :
    String
    → EventType
    → String
    → Option String
    → String
    → Timestamp
    → Option Bundle
    → Act (Option Bundle)
announce bundle_id type actor_id reason evt_id now none = return none
announce bundle_id type actor_id reason evt_id now (some updated) = do
  emit_lifecycle_event updated type actor_id reason evt_id now
  write (publish "bundle" bundle_id modified (bundle updated) updated.cookbook_id now)
  return (some updated)

unfoldable pub close_bundle :
    String → String → Option String → String → Timestamp → Act (Option Bundle)
unfolding Bundles.get
close_bundle bundle_id actor_id reason evt_id now db = elim (Bundles.get bundle_id db) [
  | none ↦ (ok none, db)
  | some b ↦
      if is_opened b.status
      then (Bundles.update_status bundle_id BundleStatus.closed only_status
            >>= announce bundle_id Status.bundle_closed actor_id reason evt_id now)
          db
      else (ok (some b), db)
]

unfoldable pub reopen_bundle :
    String → String → Option String → String → Timestamp → Act (Option Bundle)
unfolding Bundles.get
reopen_bundle bundle_id actor_id reason evt_id now db = elim (Bundles.get bundle_id db) [
  | none ↦ (ok none, db)
  | some b ↦
      if is_opened b.status
      then (ok (some b), db)
      else (Bundles.update_status bundle_id BundleStatus.opened only_status
            >>= announce bundle_id Status.bundle_reopened actor_id reason evt_id now)
          db
]
