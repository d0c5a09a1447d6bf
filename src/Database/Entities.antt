-- ===== src/Database/Entities.antt =====
-- The rows of the tables: the `*.entity.ts` files of src/modules. A column that no modelled
-- operation reads or writes is left out.
use back_end.Prelude.{ℕ, String, Bool, Option, List}
use back_end.Database.Rows.{Entity}
use back_end.Database.Json.{Json}
use back_end.Database.Enums.{
  UserRole, WorkflowStatus, SessionMode, SessionStatus, ActorType, PipelineStatus, PipelineTaskType,
  AgentType, MessageRole, MessageType, CommentType,
}

-- Identifiers are compared and never taken apart.
abbrev pub Uuid : Type 0
Uuid = ℕ

-- Milliseconds, as `Date.now()` gives them.
abbrev pub Instant : Type 0
Instant = ℕ

-- A confidence or similarity, a float that is stored, copied and compared: in steps of a
-- fraction that the model leaves open.
abbrev pub Score : Type 0
Score = ℕ

pub record Workflow : Type 0 where
  pub id : Uuid
  pub title : String
  pub description : Option String
  pub status : WorkflowStatus
  pub current_version : ℕ
  pub org_id : Uuid
  pub owner_id : Uuid
  pub project_id : Option Uuid
  pub domain : Option String
  pub tags : List String
  pub share_token : Option String
  pub share_expires_at : Option Instant
  pub share_max_views : Option ℕ
  pub share_view_count : ℕ

pub record WorkflowVersion : Type 0 where
  pub id : Uuid
  pub workflow_id : Uuid
  pub version_number : ℕ
  pub elements_json : Json
  pub elsa_json : Option Json
  pub confidence_score : Option Score
  pub created_by : Option Uuid

pub record Session : Type 0 where
  pub id : Uuid
  pub workflow_id : Uuid
  pub user_id : Uuid
  pub mode : SessionMode
  pub status : SessionStatus
  pub confidence_score : Score
  pub created_at : Instant
  pub finalized_at : Option Instant
  pub archived_at : Option Instant

pub record Message : Type 0 where
  pub id : Uuid
  pub session_id : Uuid
  pub role : MessageRole
  pub type : MessageType
  pub content : String
  pub metadata : Json
  pub created_at : Instant
  pub archived_at : Option Instant

pub record Document : Type 0 where
  pub id : Uuid
  pub workflow_id : Option Uuid
  pub session_id : Option Uuid
  pub filename : String
  pub file_type : String
  pub storage_url : String
  pub file_size_bytes : ℕ
  pub extracted_text : Option String
  pub preprocessing_confidence : Option Score
  pub doc_version : ℕ
  pub created_at : Instant
  pub deleted_at : Option Instant
  pub archived_at : Option Instant

pub record PipelineExecution : Type 0 where
  pub id : Uuid
  pub session_id : Uuid
  pub task_type : PipelineTaskType
  pub mode : SessionMode
  pub status : PipelineStatus
  pub input_payload : Json
  pub retry_count : ℕ
  pub last_checkpoint_agent : Option AgentType
  pub triggered_by : Option Uuid
  pub nats_message_id : Option String
  pub started_at : Option Instant
  pub completed_at : Option Instant
  pub total_llm_calls : ℕ
  pub total_tokens_consumed : ℕ
  pub final_confidence : Option Score
  pub error_summary : Option String
  pub created_at : Instant
  pub archived_at : Option Instant

pub record User : Type 0 where
  pub id : Uuid
  pub email : String
  pub password_hash : String
  pub role : UserRole
  pub org_id : Uuid
  pub is_verified : Bool
  pub is_active : Bool
  pub invite_token_hash : Option String
  pub invite_expires_at : Option Instant

pub record RefreshToken : Type 0 where
  pub id : Uuid
  pub user_id : Uuid
  pub revoked : Bool

pub record Comment : Type 0 where
  pub id : Uuid
  pub workflow_id : Uuid
  pub element_id : Option String
  pub author_id : Uuid
  pub type : CommentType
  pub content : String
  pub resolved : Bool
  pub resolved_at : Option Instant
  pub resolved_by : Option Uuid
  pub resolution_note : Option String
  pub parent_id : Option Uuid
  pub assigned_to : Option Uuid
  pub created_at : Instant

-- A row of the audit log; its key and its time are the database's.
pub record AuditLog : Type 0 where
  pub workflow_id : Option Uuid
  pub actor_id : Option Uuid
  pub actor_type : ActorType
  pub event_type : String
  pub element_id : Option String
  pub before_state : Option Json
  pub after_state : Option Json

instance abbrev pub workflow_entity : Entity Workflow
workflow_entity = record { key = λ r. r.id }

instance abbrev pub workflow_version_entity : Entity WorkflowVersion
workflow_version_entity = record { key = λ r. r.id }

instance abbrev pub session_entity : Entity Session
session_entity = record { key = λ r. r.id }

instance abbrev pub message_entity : Entity Message
message_entity = record { key = λ r. r.id }

instance abbrev pub document_entity : Entity Document
document_entity = record { key = λ r. r.id }

instance abbrev pub pipeline_execution_entity : Entity PipelineExecution
pipeline_execution_entity = record { key = λ r. r.id }

instance abbrev pub user_entity : Entity User
user_entity = record { key = λ r. r.id }

instance abbrev pub comment_entity : Entity Comment
comment_entity = record { key = λ r. r.id }
