-- ===== src/Samples.antt =====
-- Concrete states for the tests and the witnesses of the other modules.
pub mod Tasks
pub mod Bundles
pub mod Grants
pub mod Watching
pub mod Runs
pub mod Runtime
pub mod Sandbox
pub mod Orch
pub mod Schemas
pub mod Redaction
pub mod Creating
use krewhub.Prelude.{ℕ, String, Option, none, some, List, [], ◌∷◌}
use krewhub.Models.{Bundle, Task}
use krewhub.Models.JsonData.{empty_dict}
use krewhub.Models.Status
use krewhub.Models.Status.{BundleStatus}
use krewhub.Db.{Db}
use krewhub.Watch.Service.{WatchState}
use krewhub.TaskService.Lifecycle.{new_task}
use krewhub.TaskService.Posting.{PostArgs, EventSpec}

abbrev pub bundle_1 : Bundle
bundle_1 = record {
  id = "bun_1";
  cookbook_id = some "cb";
  repo_spec = none;
  prompt = "build it";
  status = BundleStatus.opened;
  created_by = "ann";
  created_at = 5;
  claimed_at = none;
  cooked_at = none;
  digested_at = none;
  blocked_reason = none;
  graph_code = some "graph()";
  graph_mermaid = none;
  graph_terminal_at = none;
  resource_version = 1;
  generation = 1;
  owner_account_id = none;
  default_agent_runtime_id = none;
  sandbox_id = none;
}

abbrev pub task_1 : Task
task_1 = new_task "task_1" "bun_1" "first" none []

abbrev pub task_2 : Task
task_2 = new_task "task_2" "bun_1" "second" none ("task_1" ∷ [])

-- A claimed task whose session is stamped.
abbrev pub task_3 : Task
task_3 = record (new_task "task_3" "bun_1" "third" none []) {
  status = Status.claimed;
  claimed_by_agent_id = some "bob";
  session_token = some "tok";
}

abbrev pub quiet_watch : WatchState
quiet_watch = record { log = record { rows = []; last_seq = 0 }; subscribers = [] }

abbrev pub db_of : List Task → Db
db_of tasks = record {
  bundles = bundle_1 ∷ [];
  tasks = tasks;
  events = [];
  tape_entries = [];
  task_usage = [];
  watch = quiet_watch;
}

-- Two open tasks, of which the second waits for the first.
abbrev pub db_open : Db
db_open = db_of (task_1 ∷ task_2 ∷ [])

abbrev pub db_stamped : Db
db_stamped = db_of (task_1 ∷ task_3 ∷ [])

abbrev pub said : PostArgs
said = record {
  event_type = Status.milestone;
  actor_id = "bob";
  actor_type = Status.agent;
  body = "half way";
  payload = some empty_dict;
  facts = [];
  code_refs = [];
  visibility = none;
}

abbrev pub spec_of : String → EventSpec
spec_of type = record {
  type = type;
  actor_id = "bob";
  actor_type = none;
  body = some "x";
  payload = some empty_dict;
  facts = [];
  code_refs = [];
  visibility = none;
}
