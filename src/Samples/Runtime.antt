-- ===== src/Samples/Runtime.antt =====
-- Waits, agents and a run of a graph's step: tests, and one application of each theorem.
use Prim.Native.String.{len}
use krewhub.Prelude.{
  String, ◌≡◌, refl, Bool, true, false, none, some, List, [], ◌∷◌, ◌↔◌, All, arith, leb,
  if◌then◌else◌, nat_eq,
}
use krewhub.Prelude.Table.{dict_get}
use krewhub.Models.{Task, AgentPresence}
use krewhub.Models.Status
use krewhub.Models.Status.{TaskStatus, AgentStatus}
use krewhub.Db.Tasks
use krewhub.GraphRuntime.Polling
use krewhub.GraphRuntime.Polling.{Look, Waited, wait_for_dependencies, named_deps, Polled}
use krewhub.GraphRuntime.Polling.Settling.{Settles, wait_for_dependencies-ready}
use krewhub.GraphRuntime.Picker
use krewhub.GraphRuntime.Picker.{pick_agent_for_kind, pick_with_diversity}
use krewhub.GraphRuntime.Picker.Diversity.{IsDiverse, pick_with_diversity-IsDiverse}
use krewhub.GraphRuntime.Cycle.{Surroundings, Step, CycleEnd}
use krewhub.GraphRuntime.Cycle.Records
use krewhub.GraphRuntime.Cycle.Records.{Run}
use krewhub.GraphRuntime.Cycle.Attempts
use krewhub.GraphRuntime.Cycle.Dispatch
use krewhub.GraphRuntime.Cycle.Dispatch.{dispatch_cycle, or_empty}
use krewhub.GraphRuntime.Cycle.Dispatch.Recorded.{IsRecorded, dispatch_cycle-IsRecorded}
use krewhub.GraphRuntime.Cycle.Dispatch.Honest.{IsHonest, dispatch_cycle-IsHonest}
use krewhub.Samples.{task_1, db_open}

abbrev finished_task : Task → Task
finished_task t = record t { status = Status.done }

-- From the second round on each task is done.
abbrev look : Look
look k id = if nat_eq k 0 then some task_1 else some (finished_task task_1)

waited_twice : wait_for_dependencies Status.done look 2 ("task_1" ∷ "" ∷ []) ≡ Waited.ready
unfolding wait_for_dependencies Polling.wait_rounds Polling.round
waited_twice = refl

waited_once : wait_for_dependencies Status.done look 1 ("task_1" ∷ []) ≡ Waited.timed_out
unfolding wait_for_dependencies Polling.wait_rounds Polling.round
waited_once = refl

wait_for_dependencies-ready_example :
    (wait_for_dependencies Status.done look 2 ("task_1" ∷ "" ∷ []) ≡ Waited.ready)
    ↔ All (λ d. Settles Status.done look d 0 2) (named_deps ("task_1" ∷ "" ∷ []))
wait_for_dependencies-ready_example =
    wait_for_dependencies-ready Status.done look 2 ("task_1" ∷ "" ∷ [])

abbrev agent_of : String → AgentStatus → List String → AgentPresence
agent_of id status capabilities = record {
  agent_id = id;
  cookbook_id = "cb";
  display_name = id;
  capabilities = capabilities;
  max_concurrent_tasks = 1;
  endpoint_url = some "http://gateway";
  status = status;
  last_heartbeat_at = 1;
  current_task_id = none;
  resource_version = 1;
  owner_username = none;
  mint_tx_hash = none;
  mint_token_id = none;
  aa_wallet_address = none;
}

abbrev agents : List AgentPresence
agents =
    agent_of "bob" Status.online []
    ∷ agent_of "eve" Status.busy ("coder" ∷ [])
    ∷ agent_of "joe" Status.offline ("coder" ∷ [])
    ∷ []

abbrev lower : String → String
lower s = s

abbrev text_le : String → String → Bool
text_le s t = leb (len s) (len t)

text_total : (s t : String) → text_le s t ≡ false → text_le t s ≡ true
text_total s t h = ground arith

text_trans : (s t u : String) → text_le s t ≡ true → text_le t u ≡ true → text_le s u ≡ true
text_trans s t u h k = ground arith

-- The one that can do it, though busy; the other where it has been tried.
picked :
    (pick_agent_for_kind lower text_le agents "coder" []
      ≡ some (agent_of "eve" Status.busy ("coder" ∷ [])))
    × (pick_agent_for_kind lower text_le agents "coder" ("eve" ∷ [])
        ≡ some (agent_of "bob" Status.online []))
    × (pick_with_diversity lower text_le agents "coder" ("eve" ∷ []) ("bob" ∷ [])
        ≡ some (agent_of "bob" Status.online []))
unfolding pick_agent_for_kind pick_with_diversity Picker.sort
picked = (refl, refl, refl)

pick_with_diversity-IsDiverse_example :
    IsDiverse agents
      ("eve" ∷ [])
      ("bob" ∷ [])
      (pick_with_diversity lower text_le agents "coder" ("eve" ∷ []) ("bob" ∷ []))
pick_with_diversity-IsDiverse_example =
    pick_with_diversity-IsDiverse lower text_le text_total text_trans agents "coder" ("eve" ∷ [])
      ("bob" ∷ [])

-- The first gateway rejects, the second agent finishes the task in the second round of reads.
abbrev env : Surroundings
env = record {
  lower = lower;
  text_le = text_le;
  print = λ n. "n";
  quote = λ s. s;
  rounds = 3;
  task_timeout = "300";
  dep_look = look;
  dep_after = λ db. db;
  flight_look = look;
  flight_after = λ db. db;
  agents = λ k. agents ∷ [];
  accepts = λ k agent prompt. nat_eq k 2;
  look = λ k. look;
  after = λ k db. db;
  now = 7;
}

abbrev step : Step
step = record {
  node_id = "code";
  task_kind = "coder";
  instruction = "write it";
  max_iterations = 3;
  accept_when = Status.done;
  task_id_map = ("plan", "task_1") ∷ ("code", "task_2") ∷ [];
  upstream_context = λ ids. "";
}

abbrev run : Run
run = record {
  state = record {
    prompt = "build it";
    bundle_id = "bun_1";
    task_results = [];
    bundle_dispatched_agents = [];
  };
  db = db_open;
}

second_agent : (dispatch_cycle env step run).0 ≡ CycleEnd.done_by "bob"
unfolding dispatch_cycle wait_for_dependencies Polling.wait_rounds Polling.round Tasks.get
    Dispatch.enter_loop Attempts.run_attempts Attempts.attempt_once pick_agent_for_kind
    pick_with_diversity Picker.sort Polling.wait_for_task_terminal Records.append_attempt
second_agent = refl

dispatch_cycle-IsRecorded_example : IsRecorded "code" (dispatch_cycle env step run)
dispatch_cycle-IsRecorded_example = dispatch_cycle-IsRecorded env step run

dispatch_cycle-IsHonest_example :
    IsHonest env step db_open
      (or_empty env step (dict_get "code" step.task_id_map))
      (dispatch_cycle env step run)
dispatch_cycle-IsHonest_example = dispatch_cycle-IsHonest env step run
