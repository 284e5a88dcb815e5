-- ===== src/Watch/Log.antt =====
-- src/krewhub/watch/store.py: the watch_log table and the conversion of a row into an event, with
-- the event type of src/krewhub/watch/types.py. The rows stand in the order of their insertion,
-- which is that of `seq`: the column is AUTOINCREMENT, so the table remembers the last number.
pub mod Order
pub mod Paging
use krewhub.Prelude.{
  ℕ, suc, String, Bool, true, false, Option, none, some, ◌&&◌, List, [], ◌∷◌, ◌++◌, ltb, not, max,
  length, take, filter, ◌==◌, ◌-◌,
}
use krewhub.Models.{Timestamp}
use krewhub.Models.Status.{WatchEventType}
use krewhub.Watch.Channels.{Resource, derive_channel}

pub record WatchEntry : Type 0 where
  pub seq : ℕ
  pub resource_type : String
  pub resource_id : String
  pub event_type : WatchEventType
  pub resource_version : ℕ
  pub payload : Resource
  pub cookbook_id : Option String
  pub created_at : Timestamp

pub record WatchEvent : Type 0 where
  pub event_type : WatchEventType
  pub resource_type : String
  pub resource_id : String
  pub resource_version : ℕ
  pub object : Resource
  pub cookbook_id : Option String
  pub seq : ℕ
  pub channel : String

pub record WatchLog : Type 0 where
  pub rows : List WatchEntry
  pub last_seq : ℕ

-- The arguments of WatchLogStore.append, with the time of the call.
pub record Mutation : Type 0 where
  pub resource_type : String
  pub resource_id : String
  pub event_type : WatchEventType
  pub resource_version : ℕ
  pub payload : Resource
  pub cookbook_id : Option String
  pub now : Timestamp

abbrev pub entry_of : ℕ → Mutation → WatchEntry
entry_of n m = record {
  seq = n;
  resource_type = m.resource_type;
  resource_id = m.resource_id;
  event_type = m.event_type;
  resource_version = m.resource_version;
  payload = m.payload;
  cookbook_id = m.cookbook_id;
  created_at = m.now;
}

unfoldable pub append : Mutation → WatchLog → WatchEntry × WatchLog
append m log =
    let entry = entry_of (suc log.last_seq) m in
    (entry, record { rows = log.rows ++ entry ∷ []; last_seq = suc log.last_seq })

-- A clause `column = ?` that is only there for a filter that is not None.
abbrev pub column_is : Option String → Option String → Bool
column_is none value = true
column_is (some wanted) none = false
column_is (some wanted) (some value) = value == wanted

abbrev pub selected : ℕ → Option String → Option String → WatchEntry → Bool
selected since resource_type cookbook_id e =
    ltb since e.seq
    && column_is resource_type (some e.resource_type)
    && column_is cookbook_id e.cookbook_id

unfoldable pub list_since : ℕ → Option String → Option String → ℕ → WatchLog → List WatchEntry
list_since since resource_type cookbook_id limit log =
    take limit (filter (selected since resource_type cookbook_id) log.rows)

abbrev pub max_seq : List WatchEntry → ℕ
max_seq [] = 0
max_seq (e ∷ rows) = max e.seq (max_seq rows)

unfoldable pub latest_seq : WatchLog → ℕ
latest_seq log = max_seq log.rows

unfoldable pub trim_before : ℕ → WatchLog → ℕ × WatchLog
trim_before seq log =
    let kept = filter (λ e. not (ltb e.seq seq)) log.rows in
    (length log.rows - length kept, record log { rows = kept })

unfoldable pub entry_to_watch_event : WatchEntry → WatchEvent
entry_to_watch_event e = record {
  event_type = e.event_type;
  resource_type = e.resource_type;
  resource_id = e.resource_id;
  resource_version = e.resource_version;
  object = e.payload;
  cookbook_id = e.cookbook_id;
  seq = e.seq;
  channel = derive_channel e.resource_type e.event_type e.payload;
}
