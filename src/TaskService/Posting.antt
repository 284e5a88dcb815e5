-- ===== src/TaskService/Posting.antt =====
-- src/krewhub/services/task_service.py: post_event and post_events_batch.
pub mod Batch
pub mod Payload
use Prim.Native.String.{◌++◌ as append}
use krewhub.Prelude.{ℕ, suc, String, Option, none, some, List, [], ◌∷◌, if◌then◌else◌}
use krewhub.Models.{Task, Event, FactRef, CodeRef, Timestamp}
use krewhub.Models.JsonData.{Fields}
use krewhub.Models.Status
use krewhub.Models.Status.{
  TaskStatus, EventType, task_working, ActorType, added, modified, event_type_value, event_type_of,
  actor_type_of,
}
use krewhub.Watch.Channels.{task, event}
use krewhub.Db.{
  Db, Act, ok, err, value_error, validation_error, return, raise, gets, write, ◌>>=◌, ◌>>◌, publish,
}
use krewhub.Db.Tasks
use krewhub.Db.Tasks.{no_patch}
use krewhub.Db.Events
use krewhub.TaskService.Visibility.{classify_visibility}
use krewhub.TaskService.{
  check_and_stamp_session_token, cookbook_id_for_bundle, plain_event, is_blank, text_of,
}

-- `visibility or classify_visibility(type)`
abbrev pub resolve_visibility : Option String → String → String
resolve_visibility v event_type = if is_blank v then classify_visibility event_type else text_of v

-- The event and its watch record.
abbrev pub add_event : Event → Option String → Timestamp → Act (Unit {0})
add_event e cookbook_id now = do
  Events.create e
  write (publish "event" e.id added (event e) cookbook_id now)

abbrev pub working_event :
    String → Option String → Task → String → ActorType → String → Timestamp → Event
working_event id cookbook_id t actor_id actor_type visibility now =
    record (plain_event id cookbook_id t task_working actor_id actor_type
      (append "Task '" (append t.title "' is now working.")) now) { visibility = visibility }

-- The events that start the work, once the row was updated. The actor's type may be no member.
abbrev pub note_working :
    String
    → Option String
    → Task
    → String
    → Option ActorType
    → String
    → String
    → Timestamp
    → Option Task
    → Act (Unit {0})
note_working task_id cookbook_id t actor_id actor_type visibility working_id now none db =
    (ok tt, db)
note_working task_id cookbook_id t actor_id actor_type visibility working_id now (some u) db =
    let db' = publish "task" task_id modified (task u) cookbook_id now db in
    elim actor_type [
      | none ↦ (err value_error, db')
      | some a ↦
          add_event (working_event working_id cookbook_id t actor_id a visibility now) cookbook_id
            now db'
    ]

unfoldable pub begin_work :
    String
    → Option String
    → Task
    → String
    → Option ActorType
    → String
    → String
    → Timestamp
    → Act (Unit {0})
begin_work task_id cookbook_id t actor_id actor_type visibility working_id now = do
  updated ← Tasks.update task_id (record no_patch { status = some Status.working }) now
  note_working task_id cookbook_id t actor_id actor_type visibility working_id now updated

-- `if task.status == CLAIMED:` the task starts to work.
unfoldable pub start_working :
    String
    → Option String
    → Task
    → String
    → Option ActorType
    → String
    → String
    → Timestamp
    → Act (Unit {0})
unfolding begin_work
start_working task_id cookbook_id t actor_id actor_type visibility working_id now db =
    elim t.status [
      | TaskStatus.claimed ↦
          begin_work task_id cookbook_id t actor_id actor_type visibility working_id now db
      | _ ↦ (ok tt, db)
    ]

-- The arguments of post_event beside the task's id and the session token.
pub record PostArgs : Type 0 where
  pub event_type : EventType
  pub actor_id : String
  pub actor_type : ActorType
  pub body : String
  pub payload : Option Fields
  pub facts : List FactRef
  pub code_refs : List CodeRef
  pub visibility : Option String

abbrev pub posted_event : String → Option String → Task → PostArgs → Fields → ℕ → Timestamp → Event
posted_event id cookbook_id t args payload sequence now = record {
  id = id;
  cookbook_id = cookbook_id;
  bundle_id = some t.bundle_id;
  task_id = some t.id;
  type = args.event_type;
  actor_id = args.actor_id;
  actor_type = args.actor_type;
  body = args.body;
  sequence = sequence;
  facts = args.facts;
  code_refs = args.code_refs;
  payload = payload;
  visibility = resolve_visibility args.visibility (event_type_value args.event_type);
  created_at = now;
  expires_at = none;
}

-- Allocate the number, build the event, which wants a dict for its payload, and write it.
unfoldable pub append_event :
    String → Option String → Task → PostArgs → String → Timestamp → Act Event
append_event task_id cookbook_id t args id now = do
  sequence ← gets (Events.next_sequence task_id)
  elim args.payload [
    | none ↦ raise validation_error
    | some payload ↦ (do
      add_event (posted_event id cookbook_id t args payload sequence now) cookbook_id now
      return (posted_event id cookbook_id t args payload sequence now))
  ]

unfoldable pub post_event :
    String → PostArgs → Option String → String → String → Timestamp → Act Event
post_event task_id args session_token working_id id now = do
  check_and_stamp_session_token task_id session_token
  found ← gets (Tasks.get task_id)
  elim found [
    | none ↦ raise value_error
    | some t ↦ (do
      cookbook_id ← gets (cookbook_id_for_bundle t.bundle_id)
      start_working task_id cookbook_id t args.actor_id (some args.actor_type)
          (classify_visibility "task_working") working_id now
      append_event task_id cookbook_id t args id now)
  ]

-- A dict of the batch: its type and its actor's type are texts that may name no member.
pub record EventSpec : Type 0 where
  pub type : String
  pub actor_id : String
  pub actor_type : Option String
  pub body : Option String
  pub payload : Option Fields
  pub facts : List FactRef
  pub code_refs : List CodeRef
  pub visibility : Option String

-- spec.get(key, default)
abbrev get_or : Option String → String → String
get_or none d = d
get_or (some s) d = s

abbrev pub spec_actor_type : EventSpec → Option ActorType
spec_actor_type spec = actor_type_of (get_or spec.actor_type "agent")

-- EventType(...), then ActorType(...), raise before the event is built.
abbrev pub spec_args : EventSpec → Option PostArgs
spec_args spec = elim (event_type_of spec.type) [
  | none ↦ none
  | some t ↦ elim (spec_actor_type spec) [
    | none ↦ none
    | some a ↦ some (record {
      event_type = t;
      actor_id = spec.actor_id;
      actor_type = a;
      body = get_or spec.body "";
      payload = spec.payload;
      facts = spec.facts;
      code_refs = spec.code_refs;
      visibility = spec.visibility;
    })
  ]
]

-- The loop of the batch; `ids` are the ids that the turns draw.
unfoldable pub append_batch :
    String → Option String → Task → List EventSpec → (ℕ → String) → Timestamp → Act (List Event)
append_batch task_id cookbook_id t [] ids now = return []
append_batch task_id cookbook_id t (spec ∷ specs) ids now =
    let rest = append_batch task_id cookbook_id t specs (λ i. ids (suc i)) now in
    elim (spec_args spec) [
      | none ↦ raise value_error
      | some args ↦ (do
        e ← append_event task_id cookbook_id t args (ids 0) now
        created ← rest
        return (e ∷ created))
    ]

unfoldable pub post_events_batch :
    String → List EventSpec → Option String → String → (ℕ → String) → Timestamp → Act (List Event)
post_events_batch task_id [] session_token working_id ids now = return []
post_events_batch task_id (first ∷ specs) session_token working_id ids now = do
  check_and_stamp_session_token task_id session_token
  found ← gets (Tasks.get task_id)
  elim found [
    | none ↦ raise value_error
    | some t ↦ (do
      cookbook_id ← gets (cookbook_id_for_bundle t.bundle_id)
      start_working task_id cookbook_id t first.actor_id (spec_actor_type first) "system" working_id
          now
      append_batch task_id cookbook_id t (first ∷ specs) ids now)
  ]
