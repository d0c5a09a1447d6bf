-- ===== src/Database/PipelineEnums.antt =====
-- The enumerations of src/database/enums/index.ts that the AI pipeline uses; two values of one are
-- compared by their places in the declaration.
use back_end.Prelude.{ℕ, String, ◌≡◌, ◌↔◌, true, ◌==◌, Eq, arith}
use back_end.Database.Enums.{PipelineTaskType}

pub data AgentExecutionStatus : Type 0 where
  pending running completed failed skipped : AgentExecutionStatus

abbrev pub agent_execution_status_text : AgentExecutionStatus → String
agent_execution_status_text AgentExecutionStatus.pending = "PENDING"
agent_execution_status_text AgentExecutionStatus.running = "RUNNING"
agent_execution_status_text AgentExecutionStatus.completed = "COMPLETED"
agent_execution_status_text AgentExecutionStatus.failed = "FAILED"
agent_execution_status_text AgentExecutionStatus.skipped = "SKIPPED"

abbrev pub agent_execution_status_place : AgentExecutionStatus → ℕ
agent_execution_status_place AgentExecutionStatus.pending = 0
agent_execution_status_place AgentExecutionStatus.running = 1
agent_execution_status_place AgentExecutionStatus.completed = 2
agent_execution_status_place AgentExecutionStatus.failed = 3
agent_execution_status_place AgentExecutionStatus.skipped = 4

pub agent_execution_status_beq_iff :
    (a b : AgentExecutionStatus)
    → ((agent_execution_status_place a == agent_execution_status_place b) ≡ true) ↔ (a ≡ b)
agent_execution_status_beq_iff a b = ground arith

instance abbrev pub agent_execution_status_Eq : Eq AgentExecutionStatus
agent_execution_status_Eq = record {
  beq = λ a b. agent_execution_status_place a == agent_execution_status_place b;
  beq_iff = agent_execution_status_beq_iff;
}

pub data LogLevel : Type 0 where
  debug info warning error : LogLevel

pub data GraphType : Type 0 where
  intent generated executed reconciled : GraphType

pub data GraphSource : Type 0 where
  ai_extraction ai_generation elsa_import manual_merge : GraphSource

pub data ComparisonType : Type 0 where
  intent_vs_generated generated_vs_executed intent_vs_executed : ComparisonType

abbrev pub comparison_type_text : ComparisonType → String
comparison_type_text ComparisonType.intent_vs_generated = "INTENT_VS_GENERATED"
comparison_type_text ComparisonType.generated_vs_executed = "GENERATED_VS_EXECUTED"
comparison_type_text ComparisonType.intent_vs_executed = "INTENT_VS_EXECUTED"

pub data DivergenceSeverity : Type 0 where
  none low medium high critical : DivergenceSeverity

pub data DivergenceReportStatus : Type 0 where
  pending running completed failed : DivergenceReportStatus

abbrev pub pipeline_task_type_text : PipelineTaskType → String
pipeline_task_type_text PipelineTaskType.full_pipeline = "FULL_PIPELINE"
pipeline_task_type_text PipelineTaskType.scoped_reprocess = "SCOPED_REPROCESS"
pipeline_task_type_text PipelineTaskType.export_only = "EXPORT_ONLY"
pipeline_task_type_text PipelineTaskType.qa_round = "QA_ROUND"
