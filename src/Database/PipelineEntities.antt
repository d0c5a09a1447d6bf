-- ===== src/Database/PipelineEntities.antt =====
-- The rows that the AI pipeline writes: src/modules/agents/entities, src/modules/divergence/entities
-- and the knowledge graph of src/modules/workflows/entities.
use back_end.Prelude.{ℕ, String, Bool, Option}
use back_end.Database.Rows.{Entity}
use back_end.Database.Json.{Json}
use back_end.Database.Enums.{AgentType}
use back_end.Database.PipelineEnums.{
  AgentExecutionStatus, LogLevel, GraphType, GraphSource, ComparisonType, DivergenceReportStatus,
  DivergenceSeverity,
}
use back_end.Database.Entities.{Uuid, Instant, Score}

-- Of a skill, what the choice of skills for a task reads.
pub record Skill : Type 0 where
  pub id : Uuid
  pub org_id : Uuid
  pub is_active : Bool
  pub is_mandatory : Bool
  pub updated_at : Instant

pub record AgentDefinition : Type 0 where
  pub id : Uuid
  pub agent_type : AgentType
  pub created_at : Instant

pub record AgentExecution : Type 0 where
  pub id : Uuid
  pub pipeline_execution_id : Uuid
  pub agent_definition_id : Uuid
  pub status : AgentExecutionStatus
  pub order_index : ℕ
  pub confidence_input : Option Score
  pub confidence_output : Option Score
  pub llm_calls_count : ℕ
  pub tokens_consumed : ℕ
  pub error_message : Option String
  pub started_at : Option Instant
  pub completed_at : Option Instant

pub record AgentLog : Type 0 where
  pub agent_execution_id : Uuid
  pub log_level : LogLevel
  pub message : String
  pub metadata : Json

pub record DeadLetter : Type 0 where
  pub subject : String
  pub payload : Json
  pub reason : String
  pub delivery_count : ℕ
  pub last_error : Option String

pub record KgNode : Type 0 where
  pub id : Uuid
  pub session_id : Uuid
  pub type : String
  pub label : String
  pub inferred : Bool

pub record KgEdge : Type 0 where
  pub id : Uuid
  pub session_id : Uuid
  pub from_node_id : Uuid
  pub to_node_id : Uuid
  pub relation_type : String

pub record WorkflowGraphSnapshot : Type 0 where
  pub id : Uuid
  pub workflow_id : Uuid
  pub workflow_version_id : Option Uuid
  pub session_id : Option Uuid
  pub graph_type : GraphType
  pub source : GraphSource
  pub nodes : Json
  pub edges : Json
  pub node_count : ℕ
  pub edge_count : ℕ
  pub created_by : Option Uuid

-- The five counters of points are 0 until a comparison fills them, which is not modelled.
pub record DivergenceReport : Type 0 where
  pub id : Uuid
  pub workflow_id : Uuid
  pub graph_a_id : Uuid
  pub graph_b_id : Uuid
  pub comparison_type : ComparisonType
  pub status : DivergenceReportStatus
  pub overall_similarity : Option Score
  pub severity : Option DivergenceSeverity
  pub auto_triggered : Bool
  pub triggered_by : Option Uuid
  pub pipeline_execution_id : Option Uuid
  pub completed_at : Option Instant

instance abbrev pub agent_execution_entity : Entity AgentExecution
agent_execution_entity = record { key = λ r. r.id }

instance abbrev pub divergence_report_entity : Entity DivergenceReport
divergence_report_entity = record { key = λ r. r.id }
