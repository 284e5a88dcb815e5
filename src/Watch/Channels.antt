-- ===== src/Watch/Channels.antt =====
-- src/krewhub/services/watch_channels.py: the typed channel of a watch event, and what the maps
-- of that module read from a resource's JSON form. The module's two fallbacks build the text.
use Prim.Native.String.{◌++◌ as append}
use krewhub.Prelude.{
  ℕ, String, Bool, true, false, Option, none, some, List, [], ◌∷◌, ◌==◌, if◌then◌else◌,
}
use krewhub.Prelude.Table.{dict_get}
use krewhub.Models.{Task, Bundle, Event, AgentPresence}
use krewhub.Models.JsonData.{Json, str, int, pos, Fields, get}
use krewhub.Models.Status.{
  task_status_value, bundle_status_value, event_type_value, agent_status_value, WatchEventType,
  added, lower,
}

-- What a mutation carries: a model, whose `model_dump` is read field by field, or a plain dict.
pub data Resource : Type 0 where
  task : Task → Resource
  bundle : Bundle → Resource
  event : Event → Resource
  agent : AgentPresence → Resource
  dict : Fields → Resource

abbrev text_of : Option Json → Option String
text_of (some (str s)) = some s
text_of _ = none

-- obj.get("status")
abbrev pub status_of : Resource → Option String
status_of (task t) = some (task_status_value t.status)
status_of (bundle b) = some (bundle_status_value b.status)
status_of (event e) = none
status_of (agent a) = some (agent_status_value a.status)
status_of (dict d) = text_of (get "status" d)

-- obj.get("type")
abbrev pub type_of : Resource → Option String
type_of (event e) = some (event_type_value e.type)
type_of (dict d) = text_of (get "type" d)
type_of _ = none

-- obj.get("_channel_hint")
abbrev pub channel_hint : Resource → Option String
channel_hint (dict d) = text_of (get "_channel_hint" d)
channel_hint _ = none

abbrev version_of : Option Json → ℕ
version_of (some (int (pos n))) = n
version_of _ = 1

-- payload.get("resource_version", 1)
abbrev pub resource_version_of : Resource → ℕ
resource_version_of (task t) = t.resource_version
resource_version_of (bundle b) = b.resource_version
resource_version_of (event e) = 1
resource_version_of (agent a) = a.resource_version
resource_version_of (dict d) = version_of (get "resource_version" d)

abbrev pub task_status_to_channel : List (String × String)
task_status_to_channel =
    ("claimed", "task:claimed")
    ∷ ("working", "task:working")
    ∷ ("done", "task:completed")
    ∷ ("blocked", "task:failed")
    ∷ ("cancelled", "task:cancelled")
    ∷ []

abbrev pub bundle_status_to_channel : List (String × String)
bundle_status_to_channel = ("closed", "bundle:closed") ∷ ("open", "bundle:reopened") ∷ []

abbrev pub event_type_to_channel : List (String × String)
event_type_to_channel =
    ("tool_use", "task:message")
    ∷ ("tool_result", "task:message")
    ∷ ("thinking", "task:message")
    ∷ ("agent_reply", "task:message")
    ∷ ("milestone", "task:message")
    ∷ ("fact_added", "task:message")
    ∷ ("code_pushed", "task:message")
    ∷ ("session_start", "task:session_start")
    ∷ ("session_end", "task:session_end")
    ∷ ("bundle_closed", "bundle:closed")
    ∷ ("bundle_reopened", "bundle:reopened")
    ∷ ("prompt", "bundle:prompt")
    ∷ ("plan", "bundle:plan")
    ∷ ("task_claimed", "task:claimed")
    ∷ ("task_working", "task:working")
    ∷ []

abbrev pub agent_status_to_channel : List (String × String)
agent_status_to_channel =
    ("online", "agent:online") ∷ ("offline", "agent:offline") ∷ ("busy", "agent:busy") ∷ []

-- `if k and k in m: return m[k]`, and the fallback otherwise. No key of the maps is empty.
abbrev pub mapped : List (String × String) → Option String → String → String
mapped m none fallback = fallback
mapped m (some k) fallback = elim (dict_get k m) [ some channel ↦ channel | none ↦ fallback ]

abbrev is_added : WatchEventType → Bool
is_added added = true
is_added _ = false

abbrev says_progress : Option String → Bool
says_progress (some hint) = hint == "task:progress"
says_progress none = false

unfoldable pub derive_channel : String → WatchEventType → Resource → String
derive_channel resource_type event_type obj =
    if resource_type == "task"
    then (if is_added event_type
        then "task:added"
        else if says_progress (channel_hint obj)
        then "task:progress"
        else mapped task_status_to_channel (status_of obj) (append "task:" (lower event_type)))
    else if resource_type == "bundle"
    then (if is_added event_type
        then "bundle:added"
        else mapped bundle_status_to_channel (status_of obj) (append "bundle:" (lower event_type)))
    else if resource_type == "event"
    then mapped event_type_to_channel (type_of obj) (append "event:" (lower event_type))
    else if resource_type == "agent"
    then (if is_added event_type
        then "agent:added"
        else mapped agent_status_to_channel (status_of obj) (append "agent:" (lower event_type)))
    else append resource_type (append ":" (lower event_type))
