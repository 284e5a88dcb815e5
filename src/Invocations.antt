-- ===== src/Invocations.antt =====
-- src/krewhub/models/invocation.py, src/krewhub/repositories/invocation_repo.py and
-- src/krewhub/services/invocation_service.py: an invocation, its row and its runner. The state is
-- the tables of invocations and of tape events, the runners that are alive, and the watch service.
pub mod Creating
pub mod Running
pub mod Schema
pub mod Tape
pub mod Target
pub mod Lifecycle
use Prim.Native.String.{◌++◌ as append}
use krewhub.Prelude.{
  ℕ, String, Bool, true, false, Option, none, some, List, [], ◌∷◌, ◌++◌, not, filter, if◌then◌else◌,
  ◌==◌,
}
use krewhub.Prelude.Table.{find, modify}
use krewhub.Models.{Timestamp}
use krewhub.Models.JsonData.{Json, null, str, obj, int, pos, Fields, end, field}
use krewhub.Watch.Service.{WatchState}
use Tape.{TapeEvent, TapeEntry, TapeStore, tape_writer_append}

pub data Action : Type 0 where
  accept decline cancel error pending : Action

abbrev pub action_value : Action → String
action_value Action.accept = "accept"
action_value Action.decline = "decline"
action_value Action.cancel = "cancel"
action_value Action.error = "error"
action_value Action.pending = "pending"

-- Its content is a text, a dict or None.
pub record ResultEnvelope : Type 0 where
  pub action : Action
  pub content : Option Json
  pub reason : Option String

pub data InvocationStatus : Type 0 where
  pending running completed cancelled errored : InvocationStatus

pub record Invocation : Type 0 where
  pub id : String
  pub target_type : String
  pub target_id : Option String
  pub input : Json
  pub schema : Option Fields
  pub deadline_s : ℕ
  pub label : Option String
  pub parent_tape_id : Option String
  pub parent_fork_point : Option ℕ
  pub idempotency_key : Option String
  pub tape_id : String
  pub task_id : Option String
  pub status : InvocationStatus
  pub result : Option ResultEnvelope
  pub created_at : Timestamp
  pub started_at : Option Timestamp
  pub completed_at : Option Timestamp
  pub created_by : String

-- A runner: the reason of its fired cancel token, and the result that was submitted to it.
pub record Run : Type 0 where
  pub invocation_id : String
  pub cancelled : Option String
  pub external_result : Option ResultEnvelope

pub record Store : Type 0 where
  pub invocations : List Invocation
  pub tape : TapeStore
  pub runs : List Run

abbrev pub invocation_key : Invocation → String
invocation_key i = i.id

abbrev pub run_key : Run → String
run_key r = r.invocation_id

unfoldable pub get : String → Store → Option Invocation
get id s = find invocation_key id s.invocations

abbrev pub same_text : Option String → String → Bool
same_text none t = false
same_text (some s) t = s == t

-- The first row of the parent's tape with the key.
unfoldable pub find_by_idempotency_key : String → String → List Invocation → Option Invocation
find_by_idempotency_key parent_tape_id key [] = none
find_by_idempotency_key parent_tape_id key (i ∷ rows) =
    let rest = find_by_idempotency_key parent_tape_id key rows in
    if same_text i.parent_tape_id parent_tape_id
    then (if same_text i.idempotency_key key then some i else rest)
    else rest

abbrev pub is_terminal : InvocationStatus → Bool
is_terminal InvocationStatus.completed = true
is_terminal InvocationStatus.cancelled = true
is_terminal InvocationStatus.errored = true
is_terminal _ = false

abbrev pub is_pending : InvocationStatus → Bool
is_pending InvocationStatus.pending = true
is_pending _ = false

-- WHERE id=? AND status='pending'
abbrev pub started_row : Timestamp → Invocation → Invocation
started_row now i =
    if is_pending i.status
    then record i { status = InvocationStatus.running; started_at = some now }
    else i

unfoldable pub set_running : String → Timestamp → Store → Store
set_running id now s = record s {
  invocations = modify invocation_key id (started_row now) s.invocations;
}

-- WHERE id=? AND status NOT IN ('completed','cancelled','errored')
abbrev pub ended_row : InvocationStatus → ResultEnvelope → Timestamp → Invocation → Invocation
ended_row status result now i =
    if is_terminal i.status
    then i
    else record i { status = status; result = some result; completed_at = some now }

unfoldable pub set_terminal : String → InvocationStatus → ResultEnvelope → Timestamp → Store → Store
set_terminal id status result now s = record s {
  invocations = modify invocation_key id (ended_row status result now) s.invocations;
}

unfoldable pub action_to_status : Action → InvocationStatus
action_to_status Action.accept = InvocationStatus.completed
action_to_status Action.decline = InvocationStatus.completed
action_to_status Action.cancel = InvocationStatus.cancelled
action_to_status _ = InvocationStatus.errored

abbrev json_text : Option String → Json
json_text none = null
json_text (some s) = str s

abbrev json_or_null : Option Json → Json
json_or_null none = null
json_or_null (some j) = j

-- result.model_dump(mode="json")
abbrev pub dump_result : ResultEnvelope → Fields
dump_result r =
    field "action" (str (action_value r.action))
      (field "content" (json_or_null r.content) (field "reason" (json_text r.reason) end))

abbrev pub done_entry : ResultEnvelope → TapeEntry
done_entry result = record {
  kind = "done";
  body = append "done · " (action_value result.action);
  payload = field "result" (obj (dump_result result)) end;
  actor_type = "system";
  actor_id = "krewhub";
  parent_id = none;
}

abbrev pub handoff_entry : Invocation → ResultEnvelope → TapeEntry
handoff_entry i result = record {
  kind = "handoff";
  body = append "handoff ← " i.target_type;
  payload = field "from_fork" (str i.tape_id) (field "result" (obj (dump_result result)) end);
  actor_type = "system";
  actor_id = "krewhub";
  parent_id = none;
}

abbrev pub decision_entry : Invocation → ResultEnvelope → TapeEntry
decision_entry i result = record {
  kind = "decision";
  body = append "decision · " (action_value result.action);
  payload = dump_result result;
  actor_type = "human";
  actor_id = i.created_by;
  parent_id = none;
}

-- The ways in which submit_result refuses, and that it went on to wait for the runner.
pub data Delivery : Type 0 where
  unknown conflict delivered : Delivery

-- `if not run.external_result.done(): run.external_result.set_result(result)`
abbrev pub offer_result : ResultEnvelope → Run → Run
offer_result result r = elim r.external_result [
  | none ↦ record r { external_result = some result }
  | some first ↦ r
]

-- What the library prints of a time is a parameter.
module _ (isoformat : Timestamp → String) where
  abbrev pub write_tape : String → Option String → TapeEntry → Timestamp → Store → Store
  write_tape tape_id invocation_id entry now s = record s {
    tape = (tape_writer_append isoformat tape_id invocation_id entry now s.tape).1;
  }

  abbrev pub hand_off : Invocation → ResultEnvelope → Timestamp → Store → Store
  hand_off i result now s = elim i.parent_tape_id [
    | none ↦ s
    | some parent ↦ write_tape parent none (handoff_entry i result) now s
  ]

  -- _finalize: the done event, the row, the handoff to the parent's tape, the end of the runner.
  unfoldable pub finalize : Invocation → ResultEnvelope → Timestamp → Store → Store
  unfolding action_to_status set_terminal
  finalize i result now s =
      let done = write_tape i.tape_id (some i.id) (done_entry result) now s in
      let ended = set_terminal i.id (action_to_status result.action) result now done in
      let handed = hand_off i result now ended in
      record handed { runs = filter (λ r. not (r.invocation_id == i.id)) handed.runs }

  -- submit_result up to the point where it waits.
  unfoldable pub deliver_result : String → ResultEnvelope → Timestamp → Store → Delivery × Store
  unfolding get
  deliver_result id result now s = elim (get id s) [
    | none ↦ (unknown, s)
    | some i ↦ if is_terminal i.status then (conflict, s) else elim (find run_key id s.runs) [
      | none ↦ (conflict, s)
      | some r ↦
          (let s' =
              if i.target_type == "human"
              then write_tape i.tape_id (some i.id) (decision_entry i result) now s
              else s in
            (delivered, record s' { runs = modify run_key id (offer_result result) s'.runs }))
    ]
  ]

-- _CancelToken.fire
abbrev pub fire : String → Run → Run
fire reason r = elim r.cancelled [ none ↦ record r { cancelled = some reason } | some first ↦ r ]

unfoldable pub cancel_invocation : String → String → Store → Store
unfolding get
cancel_invocation id reason s = elim (get id s) [
  | none ↦ s
  | some i ↦
      if is_terminal i.status then s else record s { runs = modify run_key id (fire reason) s.runs }
]
