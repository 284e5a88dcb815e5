-- ===== src/Invocations/Running.antt =====
-- _run of src/krewhub/services/invocation_service.py: what becomes of an invocation. How the hand
-- ends and what others do to the store meanwhile are parameters, as are the printing of times and
-- Python's operations on JSON values.
pub mod Ending
use Prim.Native.String.{◌++◌ as append}
use krewhub.Prelude.{
  String, Bool, true, false, Option, none, some, List, [], ◌∷◌, if◌then◌else◌, ◌==◌,
}
use krewhub.Prelude.Table.{find}
use krewhub.Models.{Timestamp}
use krewhub.Models.JsonData.{Json, Fields, str, end, field}
use krewhub.Invocations.{
  Action, ResultEnvelope, Invocation, Run, run_key, Store, finalize, write_tape,
}
use krewhub.Invocations.Schema.{Check, pass, refused, crashed, Python, validate_content}
use krewhub.Invocations.Tape.{TapeEntry}

-- How the awaited call of the hand ends: a return, TimeoutError, CancelledError, another exception
-- with its text.
pub data HandEnd : Type 0 where
  returned : ResultEnvelope → HandEnd
  timed_out : HandEnd
  was_cancelled : HandEnd
  raised : String → HandEnd

abbrev pub envelope : Action → String → ResultEnvelope
envelope action reason = record { action = action; content = none; reason = some reason }

abbrev pub or_text : Option String → String → String
or_text none other = other
or_text (some s) other = if s == "" then other else s

abbrev pub cancel_reason : Option Run → Option String
cancel_reason none = none
cancel_reason (some r) = r.cancelled

abbrev pub result_of_end : HandEnd → Option Run → ResultEnvelope
result_of_end (returned result) run = result
result_of_end timed_out run = envelope Action.cancel "deadline_exceeded"
result_of_end was_cancelled run =
    envelope Action.cancel (or_text (cancel_reason run) "operator_cancelled")
result_of_end (raised text) run = envelope Action.error (append "hand_crash: " text)

-- A result that was submitted wins over that of the hand.
abbrev pub submitted_first : Option Run → ResultEnvelope → ResultEnvelope
submitted_first none result = result
submitted_first (some r) result = elim r.external_result [ none ↦ result | some given ↦ given ]

abbrev pub is_accept : Action → Bool
is_accept Action.accept = true
is_accept _ = false

-- A ValueError becomes a result with its text; any other exception ends the run, for which none
-- stands.
abbrev pub by_check : Check → String → ResultEnvelope → Option ResultEnvelope
by_check pass text result = some result
by_check refused text result = some (envelope Action.error text)
by_check crashed text result = none

module _ (py : Python) (text_of : Fields → Json → String) where
  abbrev pub check_result : Fields → Option Json → ResultEnvelope → Option ResultEnvelope
  check_result schema none result = some result
  check_result schema (some (str s)) result =
      some (envelope Action.error "schema_mismatch: expected object content")
  check_result schema (some content) result =
      by_check (validate_content py schema content) (text_of schema content) result

  abbrev pub against_schema : Option Fields → ResultEnvelope → Option ResultEnvelope
  against_schema none result = some result
  against_schema (some schema) result =
      if is_accept result.action then check_result schema result.content result else some result

  abbrev pub target_text : Invocation → String
  target_text i = elim i.target_id [
    | none ↦ i.target_type
    | some id ↦ if id == "" then i.target_type else append i.target_type (append ":" id)
  ]

  abbrev pub started_entry : Json → Invocation → TapeEntry
  started_entry deadline_ts i = record {
    kind = "started";
    body = append "started → " i.target_type;
    payload = field "target" (str (target_text i)) (field "deadline_ts" deadline_ts end);
    actor_type = "system";
    actor_id = "krewhub";
    parent_id = none;
  }

  module _ (isoformat : Timestamp → String) (quote : String → String) where
    abbrev pub finish : Invocation → Option ResultEnvelope → Timestamp → Store → Store
    finish i none now s = s
    finish i (some result) now s = finalize isoformat i result now s

    -- From the end of the hand on.
    unfoldable pub take_end : Invocation → HandEnd → Timestamp → Store → Store
    take_end i hand_end now s =
        let run = find run_key i.id s.runs in
        finish i (against_schema i.schema (submitted_first run (result_of_end hand_end run))) now s

    -- No hand may be registered for the type of the target.
    unfoldable pub run :
        Json → Invocation → Option HandEnd → (Store → Store) → Timestamp → Store → Store
    unfolding take_end
    run deadline_ts i hand meanwhile now s =
        let started =
          write_tape isoformat i.tape_id (some i.id) (started_entry deadline_ts i) now s in
        elim hand [
          | none ↦
              finalize isoformat i
                (envelope Action.error
                  (append "no_hand_registered: target_type=" (quote i.target_type)))
                now started
          | some hand_end ↦ take_end i hand_end now (meanwhile started)
        ]
