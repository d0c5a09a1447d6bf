-- ===== src/World/State.antt =====
-- The tables of the database, the messages sent, and which publications the broker accepts.
use back_end.Prelude.{String, Bool, Option, List}
use back_end.Database.Json.{Json}
use back_end.Database.Entities.{
  Uuid, Workflow, WorkflowVersion, Session, Message, Document, PipelineExecution, User,
  RefreshToken, Comment, AuditLog,
}
use back_end.Database.RuleEntities.{Rule, RuleVersion, ActiveRules, Simulation}
use back_end.Database.PipelineEntities.{
  Skill, AgentDefinition, AgentExecution, AgentLog, DeadLetter, KgNode, KgEdge,
  WorkflowGraphSnapshot, DivergenceReport,
}

-- src/modules/realtime/constants/ws-events.constants.ts: the rooms of the socket server.
pub data Room : Type 0 where
  session_room workflow_room pipeline_room user_room org_room : Uuid → Room

-- The correlation part of a message id: an id, or the text `comment-${id}`.
pub data Correlation : Type 0 where
  none_given : Correlation
  of_id of_comment : Uuid → Correlation
  of_text : String → Correlation

-- `buildMsgId`: `${correlationId}:${subject}:${pipelineExecutionId ?? ''}`.
pub record MsgId : Type 0 where
  pub correlation : Correlation
  pub subject : String
  pub pipeline_execution_id : Option Uuid

-- A publication on a NATS subject, or an event emitted to a room.
pub data Outgoing : Type 0 where
  published : String → Json → MsgId → Outgoing
  emitted : Room → String → Json → Outgoing

-- What the AI pipeline writes, and what its handlers keep.
pub record AiState : Type 0 where
  pub skills : List Skill
  pub agent_definitions : List AgentDefinition
  pub agent_executions : List AgentExecution
  pub agent_logs : List AgentLog
  pub dead_letters : List DeadLetter
  pub kg_nodes : List KgNode
  pub kg_edges : List KgEdge
  pub graph_snapshots : List WorkflowGraphSnapshot
  pub divergence_reports : List DivergenceReport
  -- `handledIds` of the three handlers of the AI gateway, in the order of their insertion
  pub handled_results : List String
  pub handled_progress : List String
  pub handled_divergences : List String

pub record World : Type 0 where
  pub users : List User
  pub refresh_tokens : List RefreshToken
  pub workflows : List Workflow
  pub workflow_versions : List WorkflowVersion
  pub sessions : List Session
  pub messages : List Message
  pub documents : List Document
  pub pipeline_executions : List PipelineExecution
  pub comments : List Comment
  pub rules : List Rule
  pub rule_versions : List RuleVersion
  -- `activeRuleCache` of the rules service, a map from organisations
  pub active_rule_cache : List ActiveRules
  pub simulation_cache : List Simulation
  pub ai : AiState
  pub audit_logs : List AuditLog
  -- the latest first
  pub outbox : List Outgoing
  -- whether JetStream acknowledges a publication
  pub accepts : Outgoing → Bool
