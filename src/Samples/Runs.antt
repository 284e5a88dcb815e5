-- ===== src/Samples/Runs.antt =====
-- Runs of invocations: tests, and one application of each theorem.
use krewhub.Prelude.{◌↔◌, String, ◌≡◌, refl, true, none, some, List, [], ◌∷◌, length, drop, map}
use krewhub.Prelude.Table.{find}
use krewhub.Models.{Timestamp}
use krewhub.Models.JsonData.{str, empty_dict}
use krewhub.Invocations
use krewhub.Invocations.{
  Action, ResultEnvelope, InvocationStatus, Invocation, Run, Store, conflict, run_key, is_terminal,
  finalize, deliver_result, cancel_invocation,
}
use krewhub.Invocations.Lifecycle.{
  Call, perform_all, perform_all-terminal, finalize-closes, deliver_result-first_wins,
}
use krewhub.Invocations.Tape.{TapeEntry, TapeStore, on_tape, tape_writer_append, list_for_tape}
use krewhub.Invocations.Tape.Numbers.{
  IsNumbered, tape_writer_append-IsNumbered, list_for_tape-resume,
}
use krewhub.Invocations.Target.{
  parsed, refused, human_accepts_no_id, unknown_target_type, parse_target,
}
use krewhub.Invocations.Target.Exact.{IsTarget, parse_target-exact}
use krewhub.Samples.{quiet_watch}

-- A printer of times for the runs.
abbrev pub stamp : Timestamp → String
stamp t = "2026-01-01T00:00:00+00:00"

abbrev pub asked : Invocation
asked = record {
  id = "inv_1";
  target_type = "human";
  target_id = none;
  input = str "which?";
  schema = none;
  deadline_s = 300;
  label = none;
  parent_tape_id = some "tape_0";
  parent_fork_point = none;
  idempotency_key = none;
  tape_id = "tape_1";
  task_id = none;
  status = InvocationStatus.running;
  result = none;
  created_at = 1;
  started_at = some 1;
  completed_at = none;
  created_by = "ann";
}

abbrev pub empty_tape : TapeStore
empty_tape = record { events = []; forks = []; watch = quiet_watch }

abbrev pub live_run : Run
live_run = record { invocation_id = "inv_1"; cancelled = none; external_result = none }

abbrev at_work : Store
at_work = record { invocations = asked ∷ []; tape = empty_tape; runs = live_run ∷ [] }

abbrev agreed : ResultEnvelope
agreed = record { action = Action.accept; content = some (str "this one"); reason = none }

abbrev declined : ResultEnvelope
declined = record { action = Action.decline; content = none; reason = some "no" }

asked_there : Invocations.get "inv_1" at_work ≡ some asked
unfolding Invocations.get
asked_there = refl

-- The events of the two tapes when an answered invocation has ended.
answered :
    let s = (deliver_result stamp "inv_1" agreed 2 at_work).1 in
    map (λ e. e.kind) (finalize stamp asked agreed 3 s).tape.events
    ≡ "decision" ∷ "done" ∷ "handoff" ∷ []
unfolding deliver_result finalize Invocations.get tape_writer_append
answered = refl

abbrev ended : Invocation
ended = record asked {
  status = InvocationStatus.completed;
  result = some agreed;
  completed_at = some 3;
}

abbrev at_rest : Store
at_rest = record at_work { invocations = ended ∷ [] }

ended_there : Invocations.get "inv_1" at_rest ≡ some ended
unfolding Invocations.get
ended_there = refl

abbrev calls : List Call
calls =
    Call.submit "inv_1" declined 4
    ∷ Call.settle asked declined 5
    ∷ Call.cancel "inv_1" "late"
    ∷ Call.start "inv_1" 6
    ∷ []

perform_all-terminal_example :
    Invocations.get "inv_1" (perform_all stamp calls at_rest) ≡ some ended
perform_all-terminal_example =
    perform_all-terminal stamp calls "inv_1" ended at_rest ended_there refl

finalize-closes_example :
    let s' = finalize stamp asked agreed 3 at_work in
    ((ended : Invocation) × (Invocations.get "inv_1" s' ≡ some ended)
      × (is_terminal ended.status ≡ true))
    × (deliver_result stamp "inv_1" declined 4 s' ≡ (conflict, s'))
    × (cancel_invocation "inv_1" "late" s' ≡ s')
finalize-closes_example =
    finalize-closes stamp asked asked agreed declined "late" 3 4 at_work asked_there

deliver_result-first_wins_example :
    let once = (deliver_result stamp "inv_1" agreed 2 at_work).1 in
    let twice = (deliver_result stamp "inv_1" declined 3 once).1 in
    (find run_key "inv_1" once.runs ≡ some (record live_run { external_result = some agreed }))
    × (find run_key "inv_1" twice.runs ≡ some (record live_run { external_result = some agreed }))
deliver_result-first_wins_example =
    deliver_result-first_wins stamp "inv_1" asked live_run agreed declined 2 3 at_work asked_there
      refl refl refl

abbrev note : TapeEntry
note = record {
  kind = "milestone";
  body = "half way";
  payload = empty_dict;
  actor_type = "brain";
  actor_id = "bob";
  parent_id = none;
}

empty_tape-IsNumbered : IsNumbered empty_tape
empty_tape-IsNumbered tape_id = tt

abbrev one_event : TapeStore
one_event = (tape_writer_append stamp "tape_1" none note 2 empty_tape).1

tape_writer_append-IsNumbered_example :
    let (e, s') = tape_writer_append stamp "tape_1" none note 2 empty_tape in
    (e.id ≡ length (on_tape "tape_1" empty_tape.events)) × IsNumbered s'
tape_writer_append-IsNumbered_example =
    tape_writer_append-IsNumbered stamp "tape_1" none note 2 empty_tape empty_tape-IsNumbered

abbrev two_events : TapeStore
two_events = (tape_writer_append stamp "tape_1" none note 3 one_event).1

two_events-IsNumbered : IsNumbered two_events
two_events-IsNumbered =
    (tape_writer_append-IsNumbered stamp "tape_1" none note 3 one_event
      (tape_writer_append-IsNumbered stamp "tape_1" none note 2 empty_tape
        empty_tape-IsNumbered).1).1

list_for_tape-resume_example :
    list_for_tape "tape_1" (some 0) none two_events ≡ drop 1 (on_tape "tape_1" two_events.events)
list_for_tape-resume_example = list_for_tape-resume "tape_1" 0 two_events two_events-IsNumbered

parse_target-exact_example :
    (parse_target "agent:bob" none ≡ parsed "agent" (some "bob"))
    ↔ IsTarget "agent:bob" none "agent" "bob"
parse_target-exact_example = parse_target-exact "agent:bob" none "agent" "bob"

-- A human takes no id, and the id may hold colons.
some_targets :
    (parse_target "human:ann" none ≡ refused human_accepts_no_id)
    × (parse_target "human:" none ≡ parsed "human" none)
    × (parse_target "sandbox:a:b" none ≡ parsed "sandbox" (some "a:b"))
    × (parse_target "robot" none ≡ refused (unknown_target_type "robot"))
unfolding parse_target
some_targets = (refl, refl, refl, refl)
