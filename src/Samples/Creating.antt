-- ===== src/Samples/Creating.antt =====
-- A creation that is sent twice, for src/krewhub/services/invocation_service.py.
use krewhub.Prelude.{◌≡◌, refl, none, some, [], ◌∷◌}
use krewhub.Models.JsonData.{str}
use krewhub.Invocations.{Invocation, Store, set_running, find_by_idempotency_key}
use krewhub.Invocations.Tape.{TapeFork, register_fork}
use krewhub.Invocations.Target.{parse_target}
use krewhub.Invocations.Creating.{
  InvocationRequest, Draw, created, failed, integrity_error, start, started, create, running_row,
  new_invocation,
}
use krewhub.Invocations.Creating.Repeated.{create-again}
use krewhub.Samples.Runs.{empty_tape, live_run}

abbrev request : InvocationRequest
request = record {
  target = "agent:bob/helper";
  input = str "which?";
  schema = none;
  deadline_s = 300;
  label = none;
  parent_tape_id = some "tape_0";
  parent_fork_point = some 4;
  idempotency_key = some "call_7";
  bundle_id = none;
  task_id = none;
}

abbrev draw : Draw
draw = record { id = "inv_1"; tape_id = "tape_1"; now = 3 }

abbrev later : Draw
later = record { id = "inv_2"; tape_id = "tape_2"; now = 8 }

abbrev unused : Store
unused = record { invocations = []; tape = empty_tape; runs = [] }

abbrev row : Invocation
row = running_row 3 (new_invocation request draw "ann" "agent" (some "bob/helper"))

abbrev forked : TapeFork
forked = record {
  child_tape_id = "tape_1";
  parent_tape_id = "tape_0";
  fork_point_event_id = 4;
  created_at = 3;
}

abbrev under_way : Store
under_way = record {
  invocations = row ∷ [];
  tape = record empty_tape { forks = forked ∷ [] };
  runs = live_run ∷ [];
}

first_create : create [] request draw "ann" unused ≡ (created row, under_way)
unfolding create start started set_running parse_target register_fork find_by_idempotency_key
first_create = refl

-- An empty key is not looked up, and the unique index refuses the second row.
empty_key_refused :
    (create []
      (record request { idempotency_key = some "" })
      later
      "ann"
      (record under_way { invocations = (record row { idempotency_key = some "" }) ∷ [] })).0
    ≡ failed integrity_error
unfolding create start parse_target find_by_idempotency_key
empty_key_refused = refl

create-again_example : create [] request later "bea" under_way ≡ (created row, under_way)
create-again_example =
    create-again [] request draw later "ann" "bea" "tape_0" "call_7" row unused under_way refl refl
      refl refl first_create
