-- ===== src/Invocations/Creating.antt =====
-- create of src/krewhub/services/invocation_service.py. The ids that it draws are arguments.
pub mod Repeated
use krewhub.Prelude.{
  ℕ, String, Bool, true, false, Option, none, some, List, [], ◌∷◌, ◌++◌, ◌&&◌, ◌||◌, any,
  if◌then◌else◌, ◌==◌,
}
use krewhub.Prelude.Table.{modify}
use krewhub.Models.{Timestamp}
use krewhub.Models.JsonData.{Json, Fields, obj}
use krewhub.Invocations.{
  Invocation, InvocationStatus, Run, run_key, Store, set_running, find_by_idempotency_key,
}
use krewhub.Invocations.Schema.{Check, pass, refused, crashed, validate_request_schema}
use krewhub.Invocations.Tape.{TapeStore, register_fork}
use krewhub.Invocations.Target
use krewhub.Invocations.Target.{Parsed, TargetError, parsed, parse_target}

pub record InvocationRequest : Type 0 where
  pub target : String
  pub input : Json
  pub schema : Option Fields
  pub deadline_s : ℕ
  pub label : Option String
  pub parent_tape_id : Option String
  pub parent_fork_point : Option ℕ
  pub idempotency_key : Option String
  pub bundle_id : Option String
  pub task_id : Option String

-- The ids and the time that a call draws.
pub record Draw : Type 0 where
  pub id : String
  pub tape_id : String
  pub now : Timestamp

-- A ValueError of the target or of the schema, the TypeError of a schema with an unhashable type,
-- and the IntegrityError of SQLite.
pub data CreateError : Type 0 where
  bad_target : TargetError → CreateError
  bad_schema schema_crash integrity_error : CreateError

pub data Created : Type 0 where
  created : Invocation → Created
  failed : CreateError → Created

abbrev pub check_schema : Option Fields → Check
check_schema none = pass
check_schema (some schema) = validate_request_schema (obj schema)

-- The row of the same parent and key, looked for where both are given and not empty.
abbrev pub find_existing : Option String → Option String → List Invocation → Option Invocation
find_existing (some parent) (some key) rows =
    let found = find_by_idempotency_key parent key rows in
    if parent == "" then none else (if key == "" then none else found)
find_existing _ _ rows = none

abbrev pub new_invocation : InvocationRequest → Draw → String → String → Option String → Invocation
new_invocation req draw caller target_type target_id = record {
  id = draw.id;
  target_type = target_type;
  target_id = target_id;
  input = req.input;
  schema = req.schema;
  deadline_s = req.deadline_s;
  label = req.label;
  parent_tape_id = req.parent_tape_id;
  parent_fork_point = req.parent_fork_point;
  idempotency_key = req.idempotency_key;
  tape_id = draw.tape_id;
  task_id = req.task_id;
  status = InvocationStatus.pending;
  result = none;
  created_at = draw.now;
  started_at = none;
  completed_at = none;
  created_by = caller;
}

-- Two values of a column that are equal: NULL equals nothing.
abbrev pub equal_text : Option String → Option String → Bool
equal_text (some a) (some b) = a == b
equal_text _ _ = false

-- The primary key, and the unique columns of src/krewhub/db/schema.py.
abbrev pub clashes : Invocation → Invocation → Bool
clashes i row =
    row.id == i.id
    || row.tape_id == i.tape_id
    || (equal_text row.parent_tape_id i.parent_tape_id
        && equal_text row.idempotency_key i.idempotency_key)

abbrev pub fork : Option String → Option ℕ → String → Timestamp → TapeStore → TapeStore
fork (some parent) (some point) child now tape = register_fork child parent point now tape
fork _ _ child now tape = tape

-- self._runs[r.invocation_id] = r
abbrev pub set_run : Run → List Run → List Run
set_run r runs =
    if any (λ q. run_key q == run_key r) runs
    then modify run_key (run_key r) (λ q. r) runs
    else runs ++ r ∷ []

-- The row once it runs.
abbrev pub running_row : Timestamp → Invocation → Invocation
running_row now i = record i { status = InvocationStatus.running; started_at = some now }

-- The row inserted, its fork registered, the row set running and its runner kept.
unfoldable pub started : Invocation → Timestamp → Store → Store
started i now s =
    let s1 = record s {
      invocations = s.invocations ++ i ∷ [];
      tape = fork i.parent_tape_id i.parent_fork_point i.tape_id now s.tape;
    } in
    let s2 = set_running i.id now s1 in
    record s2 {
      runs =
          set_run (record { invocation_id = i.id; cancelled = none; external_result = none })
            s2.runs;
    }

-- From the insertion on.
unfoldable pub start : Invocation → Timestamp → Store → Created × Store
start i now s =
    if any (clashes i) s.invocations
    then (failed integrity_error, s)
    else (created (running_row now i), started i now s)

-- By the target, the check of the schema and the row with the same key.
abbrev pub settle :
    InvocationRequest → Draw → String → Parsed → Check → Option Invocation → Store → Created × Store
settle req draw caller (Parsed.refused e) check existing s = (failed (bad_target e), s)
settle req draw caller (parsed t id) refused existing s = (failed bad_schema, s)
settle req draw caller (parsed t id) crashed existing s = (failed schema_crash, s)
settle req draw caller (parsed t id) pass (some i) s = (created i, s)
settle req draw caller (parsed t id) pass none s =
    start (new_invocation req draw caller t id) draw.now s

-- `hands` are the types that have a hand.
unfoldable pub create : List String → InvocationRequest → Draw → String → Store → Created × Store
create hands req draw caller s =
    settle req draw caller
      (parse_target req.target (some (hands ++ "human" ∷ "sandbox" ∷ "agent" ∷ [])))
      (check_schema req.schema) (find_existing req.parent_tape_id req.idempotency_key s.invocations)
      s
