-- ===== src/TaskService/Visibility.antt =====
-- src/krewhub/services/event_visibility.py: which event types a human sees.
use krewhub.Prelude.{String, List, [], ◌∷◌, any, if◌then◌else◌, ◌==◌}

abbrev pub user_visible_types : List String
user_visible_types =
    "prompt" ∷ "plan" ∷ "task_claimed" ∷ "milestone" ∷ "fact_added" ∷ "code_pushed"
    ∷ "bundle_closed" ∷ "bundle_reopened" ∷ []

abbrev pub system_types : List String
system_types =
    "task_working" ∷ "session_start" ∷ "session_end" ∷ "tool_use" ∷ "tool_result" ∷ "agent_reply"
    ∷ "thinking" ∷ []

unfoldable pub classify_visibility : String → String
classify_visibility event_type =
    if any (λ t. t == event_type) user_visible_types
    then "user"
    else if any (λ t. t == event_type) system_types
    then "system"
    else "system"
