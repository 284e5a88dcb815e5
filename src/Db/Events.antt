-- ===== src/Db/Events.antt =====
-- src/krewhub/repositories/event_repo.py: the events table, with the tape entry that
-- src/krewhub/tape/manager.py and src/krewhub/tape/store.py write for each event.
use Prim.Native.String.{◌++◌ as append}
pub mod Sequence
pub mod Fresh
use mathlib.Core.List.{reverse}
use krewhub.Prelude.{
  ℕ, suc, String, Bool, true, false, Option, none, some, List, [], ◌∷◌, ◌++◌, ◌-◌, ◌&&◌, not, max,
  any, filter, take, length, leb, map, if◌then◌else◌, ◌==◌,
}
use krewhub.Prelude.Ordered.{order_by}
use krewhub.Models.{Event, Timestamp}
use krewhub.Models.Status.{event_type_value}
use krewhub.Db.{Db, TapeRow, Act, ok, err, integrity_error}
use krewhub.Db.Tasks.{is_text}

abbrev pub max_sequence : List Event → ℕ
max_sequence [] = 0
max_sequence (e ∷ rows) = max e.sequence (max_sequence rows)

abbrev pub task_events : String → List Event → List Event
task_events task_id = filter (λ e. is_text e.task_id task_id)

-- COALESCE(MAX(sequence), 0) + 1 over the events of the task. (For None, which no caller passes, 0.)
unfoldable pub next_sequence : String → Db → ℕ
next_sequence task_id db = suc (max_sequence (task_events task_id db.events))

-- The key is "cookbook:<id>", or "orphan" for None and "", which holds no colon, so that
-- TapeManager prefixes it.
abbrev pub tape_key : Option String → String
tape_key none = "recipe:orphan"
tape_key (some id) = if id == "" then "recipe:orphan" else append "cookbook:" id

abbrev pub tape_row : Event → TapeRow
tape_row e = record {
  tape_name = tape_key e.cookbook_id;
  kind = e.type;
  event_id = e.id;
  bundle_id = e.bundle_id;
  task_id = e.task_id;
  body = e.body;
  facts = e.facts;
  code_refs = e.code_refs;
  actor_id = e.actor_id;
  actor_type = e.actor_type;
}

-- The row and its tape entry.
unfoldable pub insert : Event → Db → Db
insert e db = record db {
  events = db.events ++ e ∷ [];
  tape_entries = db.tape_entries ++ tape_row e ∷ [];
}

abbrev pub event_ids : List Event → List String
event_ids = map (λ e. e.id)

abbrev pub is_used : String → List String → Bool
is_used id ids = any (λ i. i == id) ids

-- The primary key of src/krewhub/db/schema.py; the rows that the event refers to are there.
unfoldable pub create : Event → Act (Unit {0})
unfolding insert
create e db =
    if is_used e.id (event_ids db.events) then (err integrity_error, db) else (ok tt, insert e db)

-- ORDER BY sequence, created_at
abbrev pub in_order : List Event → List Event
in_order rows = order_by (λ e. e.sequence) (order_by (λ e. e.created_at) rows)

unfoldable pub list_by_cookbook : String → Db → List Event
list_by_cookbook cookbook_id db =
    in_order (filter (λ e. is_text e.cookbook_id cookbook_id) db.events)

unfoldable pub list_by_cookbook_type : String → String → Db → List Event
list_by_cookbook_type cookbook_id event_type db = in_order (
    filter (λ e. is_text e.cookbook_id cookbook_id && (event_type_value e.type == event_type))
      db.events)

-- The last rows of the order, in that order. (Where rows tie, SQLite may choose others of them.)
unfoldable pub list_by_bundle : String → Option ℕ → Db → List Event
list_by_bundle bundle_id none db = in_order (filter (λ e. is_text e.bundle_id bundle_id) db.events)
list_by_bundle bundle_id (some limit) db =
    reverse
      (take limit (reverse (in_order (filter (λ e. is_text e.bundle_id bundle_id) db.events))))

unfoldable pub list_by_task : String → Db → List Event
list_by_task task_id db = in_order (task_events task_id db.events)

abbrev pub is_expired : Timestamp → Option Timestamp → Bool
is_expired now none = false
is_expired now (some expires_at) = leb expires_at now

-- The number of the rows that went, and the state without them.
unfoldable pub delete_expired : Timestamp → Db → ℕ × Db
delete_expired now db =
    let kept = filter (λ e. not (is_expired now e.expires_at)) db.events in
    (length db.events - length kept, record db { events = kept })

abbrev pub expiring : String → Timestamp → Event → Event
expiring bundle_id at e = elim e.expires_at [
  | some old ↦ e
  | none ↦ if is_text e.bundle_id bundle_id then record e { expires_at = some at } else e
]

unfoldable pub set_expiry_for_bundle : String → Timestamp → Db → Db
set_expiry_for_bundle bundle_id expires_at db = record db {
  events = map (expiring bundle_id expires_at) db.events;
}
