-- ===== src/Models.antt =====
-- The domain models of src/krewhub/models/domain.py, with JSON values in a child module.
-- A datetime is the number of its microseconds, an identifier is its text.
pub mod JsonData
pub mod Status
use krewhub.Prelude.{ℕ, String, Bool, Option, List}
use JsonData.{Json, Fields}
use Status.{TaskStatus, BundleStatus, EventType, ActorType, AgentStatus}

abbrev pub Timestamp : Type 0
Timestamp = ℕ

pub record FactRef : Type 0 where
  pub id : String
  pub claim : String
  pub source_url : Option String
  pub source_title : Option String
  pub captured_by : String
  -- A confidence is a float; it is only carried along, as its bit pattern.
  pub confidence : Option ℕ

pub record CodeRef : Type 0 where
  pub repo_url : String
  pub branch : String
  pub commit_sha : String
  pub paths : List String

pub record AgentPresence : Type 0 where
  pub agent_id : String
  pub cookbook_id : String
  pub display_name : String
  pub capabilities : List String
  pub max_concurrent_tasks : ℕ
  pub endpoint_url : Option String
  pub status : AgentStatus
  pub last_heartbeat_at : Timestamp
  pub current_task_id : Option String
  pub resource_version : ℕ
  pub owner_username : Option String
  pub mint_tx_hash : Option String
  pub mint_token_id : Option ℕ
  pub aa_wallet_address : Option String

pub record Bundle : Type 0 where
  pub id : String
  pub cookbook_id : Option String
  pub repo_spec : Option Fields
  pub prompt : String
  pub status : BundleStatus
  pub created_by : String
  pub created_at : Timestamp
  pub claimed_at : Option Timestamp
  pub cooked_at : Option Timestamp
  pub digested_at : Option Timestamp
  pub blocked_reason : Option String
  pub graph_terminal_at : Option Timestamp
  pub graph_code : Option String
  pub graph_mermaid : Option String
  pub resource_version : ℕ
  pub generation : ℕ
  pub owner_account_id : Option String
  pub default_agent_runtime_id : Option String
  pub sandbox_id : Option String

-- The keys that `orch_json` documents, with the two that the orch-agent protocol stamps.
pub record OrchBook : Type 0 where
  pub respawns : ℕ
  pub last_respawn_at : Option Timestamp
  pub accepted_at : Option Timestamp
  pub report_invalid : Bool
  pub halted : Bool
  pub awaiting_brain : Bool
  pub managed_by_agent : Option String

pub record Task : Type 0 where
  pub id : String
  pub bundle_id : String
  pub title : String
  pub description : Option String
  pub status : TaskStatus
  pub depends_on_task_ids : List String
  pub assigned_agent_id : Option String
  pub claimed_by_agent_id : Option String
  pub claimed_at : Option Timestamp
  pub completed_at : Option Timestamp
  pub blocked_reason : Option String
  pub graph_node_id : Option String
  pub resource_version : ℕ
  pub generation : ℕ
  pub progress : Option Fields
  pub session_id : Option String
  pub work_dir : Option String
  pub artifacts : Fields
  pub session_token : Option String
  pub assigned_runtime_id : Option String
  pub sandbox_id : Option String
  pub brief : Option Fields
  pub report : Option Fields
  pub orch : Option OrchBook
  pub created_by_task : Option String
  pub updated_at : Option Timestamp

pub record Event : Type 0 where
  pub id : String
  pub cookbook_id : Option String
  pub bundle_id : Option String
  pub task_id : Option String
  pub type : EventType
  pub actor_id : String
  pub actor_type : ActorType
  pub body : String
  pub sequence : ℕ
  pub facts : List FactRef
  pub code_refs : List CodeRef
  -- The second declaration of `payload` in the class replaces `dict | None` by `dict`.
  pub payload : Fields
  pub visibility : String
  pub created_at : Timestamp
  pub expires_at : Option Timestamp
