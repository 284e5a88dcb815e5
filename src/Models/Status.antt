-- ===== src/Models/Status.antt =====
-- The enumerations of src/krewhub/models/domain.py, with the texts that they stand for.
use krewhub.Prelude.{
  List, [], ◌∷◌, Option, none, some, if◌then◌else◌, ◌==◌, String, Bool, true, false,
}

pub data TaskStatus : Type 0 where
  opened claimed working done blocked cancelled blocked_on_review : TaskStatus

pub TaskStatus-discrete : Discrete TaskStatus
TaskStatus-discrete = hlevel

abbrev pub task_status_value : TaskStatus → String
task_status_value opened = "open"
task_status_value claimed = "claimed"
task_status_value working = "working"
task_status_value done = "done"
task_status_value blocked = "blocked"
task_status_value cancelled = "cancelled"
task_status_value blocked_on_review = "blocked_on_review"

abbrev pub is_open : TaskStatus → Bool
is_open opened = true
is_open _ = false

abbrev pub is_done : TaskStatus → Bool
is_done done = true
is_done _ = false

-- status IN ('claimed', 'working')
abbrev pub is_active : TaskStatus → Bool
is_active claimed = true
is_active working = true
is_active _ = false

-- _TERMINAL_STATUSES of services/graph_runtime/polling.py
abbrev pub is_terminal : TaskStatus → Bool
is_terminal done = true
is_terminal blocked = true
is_terminal cancelled = true
is_terminal _ = false

pub data BundleStatus : Type 0 where
  opened closed : BundleStatus

abbrev pub bundle_status_value : BundleStatus → String
bundle_status_value opened = "open"
bundle_status_value closed = "closed"

pub data EventType : Type 0 where
  prompt plan task_claimed task_working milestone fact_added code_pushed : EventType
  bundle_closed bundle_reopened : EventType
  session_start session_end tool_use tool_result agent_reply thinking : EventType
  progress blocker needs_review needs_human log : EventType

abbrev pub event_type_value : EventType → String
event_type_value prompt = "prompt"
event_type_value plan = "plan"
event_type_value task_claimed = "task_claimed"
event_type_value task_working = "task_working"
event_type_value milestone = "milestone"
event_type_value fact_added = "fact_added"
event_type_value code_pushed = "code_pushed"
event_type_value bundle_closed = "bundle_closed"
event_type_value bundle_reopened = "bundle_reopened"
event_type_value session_start = "session_start"
event_type_value session_end = "session_end"
event_type_value tool_use = "tool_use"
event_type_value tool_result = "tool_result"
event_type_value agent_reply = "agent_reply"
event_type_value thinking = "thinking"
event_type_value progress = "progress"
event_type_value blocker = "blocker"
event_type_value needs_review = "needs_review"
event_type_value needs_human = "needs_human"
event_type_value log = "log"

pub data AgentStatus : Type 0 where
  online offline busy : AgentStatus

abbrev pub agent_status_value : AgentStatus → String
agent_status_value online = "online"
agent_status_value offline = "offline"
agent_status_value busy = "busy"

pub data ActorType : Type 0 where
  human agent system hook : ActorType

pub data WatchEventType : Type 0 where
  added modified deleted : WatchEventType

-- WatchEventType(...).lower()
abbrev pub lower : WatchEventType → String
lower added = "added"
lower modified = "modified"
lower deleted = "deleted"

pub event_types : List EventType
event_types =
    prompt ∷ plan ∷ task_claimed ∷ task_working ∷ milestone ∷ fact_added ∷ code_pushed
    ∷ bundle_closed ∷ bundle_reopened ∷ session_start ∷ session_end ∷ tool_use ∷ tool_result
    ∷ agent_reply ∷ thinking ∷ progress ∷ blocker ∷ needs_review ∷ needs_human ∷ log ∷ []

abbrev pub actor_type_value : ActorType → String
actor_type_value human = "human"
actor_type_value agent = "agent"
actor_type_value system = "system"
actor_type_value hook = "hook"

-- The member of an enumeration with a value: none where the constructor raises ValueError.
abbrev pub member {ℓ} : {A : Type ℓ} → (A → String) → List A → String → Option A
member value [] s = none
member value (a ∷ rest) s = let r = member value rest s in if value a == s then some a else r

unfoldable pub event_type_of : String → Option EventType
unfolding event_types
event_type_of = member event_type_value event_types

unfoldable pub actor_type_of : String → Option ActorType
actor_type_of = member actor_type_value (human ∷ agent ∷ system ∷ hook ∷ [])
