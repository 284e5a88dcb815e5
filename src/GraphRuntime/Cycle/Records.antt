-- ===== src/GraphRuntime/Cycle/Records.antt =====
-- The records of src/krewhub/services/graph_runtime/state.py, and the helpers of cycle.py that
-- write them.
use krewhub.Prelude.{
  ℕ, zero, suc, String, Bool, true, false, Option, none, some, List, [], ◌∷◌, ◌++◌,
}
use krewhub.Prelude.Table.{find, modify}
use krewhub.Models.{FactRef, CodeRef, Event, Timestamp}
use krewhub.Db.{Db}
use krewhub.Db.Events

pub record AttemptRecord : Type 0 where
  pub iteration : ℕ
  pub agent_id : String
  pub status : String
  pub summary : String
  pub started_at : Timestamp
  pub ended_at : Timestamp

pub record TaskNodeResult : Type 0 where
  pub node_id : String
  pub task_id : String
  pub success : Bool
  pub summary : String
  pub attempts : List AttemptRecord
  pub facts : List FactRef
  pub code_refs : List CodeRef

-- task_results is a dict under the node ids, in the order of insertion.
pub record OrchestratorState : Type 0 where
  pub prompt : String
  pub bundle_id : String
  pub task_results : List TaskNodeResult
  pub bundle_dispatched_agents : List String

-- The state with the database.
pub record Run : Type 0 where
  pub state : OrchestratorState
  pub db : Db

abbrev pub node_key : TaskNodeResult → String
node_key r = r.node_id

abbrev pub result_of : String → OrchestratorState → Option TaskNodeResult
result_of node_id s = find node_key node_id s.task_results

abbrev pub blank_result : String → String → Bool → String → TaskNodeResult
blank_result node_id task_id success summary = record {
  node_id = node_id;
  task_id = task_id;
  success = success;
  summary = summary;
  attempts = [];
  facts = [];
  code_refs = [];
}

-- Change the record of the node, or put one there.
abbrev pub upsert :
    String
    → (TaskNodeResult → TaskNodeResult)
    → TaskNodeResult
    → OrchestratorState
    → OrchestratorState
upsert node_id change new s = record s {
  task_results = elim (find node_key node_id s.task_results) [
    | some r ↦ modify node_key node_id change s.task_results
    | none ↦ s.task_results ++ new ∷ []
  ];
}

abbrev pub add_attempt : AttemptRecord → TaskNodeResult → TaskNodeResult
add_attempt a r = record r { attempts = r.attempts ++ a ∷ [] }

unfoldable pub append_attempt :
    String → String → AttemptRecord → OrchestratorState → OrchestratorState
append_attempt node_id task_id a =
    upsert node_id (add_attempt a) (add_attempt a (blank_result node_id task_id false ""))

abbrev pub outcome_of : Bool → String → TaskNodeResult → TaskNodeResult
outcome_of success summary r = record r { success = success; summary = summary }

unfoldable pub record_success : String → String → String → OrchestratorState → OrchestratorState
record_success node_id task_id summary =
    upsert node_id (outcome_of true summary) (blank_result node_id task_id true summary)

-- An attempt is written where the iteration is positive.
abbrev pub failed_attempt : ℕ → String → String → Timestamp → TaskNodeResult → TaskNodeResult
failed_attempt zero status summary now r = r
failed_attempt (suc i) status summary now r =
    add_attempt
      (record {
        iteration = suc i;
        agent_id = "";
        status = status;
        summary = summary;
        started_at = now;
        ended_at = now;
      })
      r

-- (All calls pass an empty agent_id.)
unfoldable pub record_failure :
    String → String → ℕ → String → String → Timestamp → OrchestratorState → OrchestratorState
record_failure node_id task_id iteration status summary now =
    upsert node_id (λ r. failed_attempt iteration status summary now (outcome_of false summary r))
      (failed_attempt iteration status summary now (blank_result node_id task_id false summary))

abbrev all_facts : List Event → List FactRef
all_facts [] = []
all_facts (e ∷ events) = e.facts ++ all_facts events

abbrev all_code_refs : List Event → List CodeRef
all_code_refs [] = []
all_code_refs (e ∷ events) = e.code_refs ++ all_code_refs events

abbrev pub with_facts : List Event → TaskNodeResult → TaskNodeResult
with_facts events r = record r {
  facts = r.facts ++ all_facts events;
  code_refs = r.code_refs ++ all_code_refs events;
}

-- Nothing where the node has no record.
unfoldable pub collect_facts_and_code_refs : String → String → Run → Run
unfolding Events.list_by_task
collect_facts_and_code_refs node_id task_id run =
    let s = run.state in
    record run {
      state = record s {
        task_results =
            modify node_key node_id (with_facts (Events.list_by_task task_id run.db))
              s.task_results;
      };
    }
