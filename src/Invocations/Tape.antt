-- ===== src/Invocations/Tape.antt =====
-- src/krewhub/repositories/invocation_event_repo.py, with the tape writer of
-- src/krewhub/services/invocation_service.py: the events of the invocations' tapes. The lock of a
-- tape makes an append one step.
pub mod Numbers
use krewhub.Prelude.{
  ℕ, suc, String, Bool, true, false, Option, none, some, List, [], ◌∷◌, ◌++◌, ◌&&◌, leb, ltb, max,
  take, filter, if◌then◌else◌, ◌==◌,
}
use krewhub.Prelude.Ordered.{order_by}
use krewhub.Prelude.Table.{find}
use krewhub.Models.{Timestamp}
use krewhub.Models.JsonData.{Json, null, str, obj, int, pos, Fields, end, field}
use krewhub.Models.Status.{modified}
use krewhub.Watch.Channels.{dict}
use krewhub.Watch.Service.{WatchState, record_mutation}

pub record TapeEvent : Type 0 where
  pub tape_id : String
  pub id : ℕ
  pub parent_id : Option ℕ
  pub fork_id : Option String
  pub actor_type : String
  pub actor_id : String
  pub kind : String
  pub body : String
  pub payload : Fields
  pub ts : Timestamp

-- What a writer says of an event.
pub record TapeEntry : Type 0 where
  pub kind : String
  pub body : String
  pub payload : Fields
  pub actor_type : String
  pub actor_id : String
  pub parent_id : Option ℕ

pub record TapeFork : Type 0 where
  pub child_tape_id : String
  pub parent_tape_id : String
  pub fork_point_event_id : ℕ
  pub created_at : Timestamp

pub record TapeStore : Type 0 where
  pub events : List TapeEvent
  pub forks : List TapeFork
  pub watch : WatchState

abbrev pub on_tape : String → List TapeEvent → List TapeEvent
on_tape tape_id = filter (λ e. e.tape_id == tape_id)

-- COALESCE(MAX(id), -1) + 1
abbrev pub next_id : List TapeEvent → ℕ
next_id [] = 0
next_id (e ∷ rows) = max (suc e.id) (next_id rows)

abbrev pub event_row : String → ℕ → Option String → TapeEntry → Timestamp → TapeEvent
event_row tape_id id fork_id entry now = record {
  tape_id = tape_id;
  id = id;
  parent_id = entry.parent_id;
  fork_id = fork_id;
  actor_type = entry.actor_type;
  actor_id = entry.actor_id;
  kind = entry.kind;
  body = entry.body;
  payload = entry.payload;
  ts = now;
}

unfoldable pub append :
    String → Option String → TapeEntry → Timestamp → TapeStore → TapeEvent × TapeStore
append tape_id fork_id entry now s =
    let e = event_row tape_id (next_id (on_tape tape_id s.events)) fork_id entry now in
    (e, record s { events = s.events ++ e ∷ [] })

abbrev is_after : Option ℕ → TapeEvent → Bool
is_after none e = true
is_after (some n) e = ltb n e.id

abbrev limited : Option ℕ → List TapeEvent → List TapeEvent
limited none rows = rows
limited (some n) rows = take n rows

-- ORDER BY id ASC
unfoldable pub list_for_tape : String → Option ℕ → Option ℕ → TapeStore → List TapeEvent
unfolding order_by
list_for_tape tape_id after limit s =
    limited limit
      (order_by (λ e. e.id) (filter (λ e. (e.tape_id == tape_id) && is_after after e) s.events))

abbrev max_id : List TapeEvent → Option ℕ
max_id [] = none
max_id (e ∷ rows) = elim (max_id rows) [ none ↦ some e.id | some n ↦ some (max e.id n) ]

-- none stands for the -1 of an empty tape.
unfoldable pub latest_id : String → TapeStore → Option ℕ
latest_id tape_id s = max_id (on_tape tape_id s.events)

abbrev fork_key : TapeFork → String
fork_key f = f.child_tape_id

-- INSERT OR IGNORE: the child is the primary key.
unfoldable pub register_fork : String → String → ℕ → Timestamp → TapeStore → TapeStore
register_fork child parent point now s = elim (find fork_key child s.forks) [
  | some f ↦ s
  | none ↦ record s {
    forks =
        s.forks
        ++ (record {
          child_tape_id = child;
          parent_tape_id = parent;
          fork_point_event_id = point;
          created_at = now;
        })
          ∷ [];
  }
]

abbrev json_text : Option String → Json
json_text none = null
json_text (some s) = str s

-- The payload of the watch record of an event.
abbrev watch_payload : (Timestamp → String) → Option String → TapeEvent → Fields
watch_payload isoformat invocation_id e = field "kind" (str e.kind) (
    field "tape_id" (str e.tape_id) (
      field "invocation_id" (json_text invocation_id) (
        field "id" (int (pos e.id)) (
          field "actor_type" (str e.actor_type) (
            field "actor_id" (str e.actor_id) (
              field "body" (str e.body)
                (field "payload" (obj e.payload) (field "ts" (str (isoformat e.ts)) end))))))))

unfoldable pub tape_writer_append :
    (Timestamp → String)
    → String
    → Option String
    → TapeEntry
    → Timestamp
    → TapeStore
    → TapeEvent × TapeStore
unfolding append
tape_writer_append isoformat tape_id invocation_id entry now s =
    let (e, s') = append tape_id none entry now s in
    (
      e,
      record s' {
        watch =
            (record_mutation
              (record {
                resource_type = "invocation";
                resource_id = e.tape_id;
                event_type = modified;
                resource_version = e.id;
                payload = dict (watch_payload isoformat invocation_id e);
                cookbook_id = none;
                now = now;
              })
              s'.watch).1;
      },
    )
