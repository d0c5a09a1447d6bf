-- ===== src/AiGateway/Progress.antt =====
-- src/modules/ai-gateway/handlers/stream-token.handler.ts: the progress of an agent.
use back_end.Prelude.{
  ℕ, ◌+◌, ◌-◌, String, Option, none, some, List, [], ◌∷◌, ◌==◌, ◌===◌, ◌&&◌, ◌||◌, string_Eq, ltb,
  if◌then◌else◌, option_get,
}
use back_end.Database.Json.{Json, Fields}
use back_end.Database.Enums.{AgentType, agent_type_Eq, agent_type_text, PipelineStatus}
use back_end.Database.PipelineEnums.{
  AgentExecutionStatus, agent_execution_status_Eq, agent_execution_status_text, LogLevel,
}
use back_end.Database.Orm.{Orm}
use back_end.Database.Entities.{Uuid, Instant, Score, PipelineExecution}
use back_end.Database.PipelineEntities.{AgentExecution, agent_execution_entity}
use back_end.World.{World, Action, plain_error, pure, gets, modify, or_throw, ◌>>=◌, ◌>>◌}
use back_end.Messaging.Gateway.{emit_to_session}
use back_end.AiGateway.Handled.{handle_once, idempotency_key}
use back_end.AiGateway.Results.{assert_org_match, find_pipeline_execution, save_pipeline}

-- A whole number that a counter is changed by.
pub data Delta : Type 0 where
  adds subtracts : ℕ → Delta

pub record LogEntry : Type 0 where
  pub level : LogLevel
  pub message : String
  pub metadata : Option Json

-- `AiTaskProgressEvent`
pub record AiTaskProgressEvent : Type 0 where
  pub correlation_id : String
  pub session_id : Uuid
  pub org_id : Option Uuid
  pub pipeline_execution_id : Uuid
  pub agent_execution_id : Uuid
  pub agent_type : AgentType
  pub status : AgentExecutionStatus
  pub order_index : ℕ
  pub progress_pct : ℕ
  pub confidence_input : Option Score
  pub confidence_output : Option Score
  pub llm_calls_delta : Option Delta
  pub tokens_delta : Option Delta
  pub started_at : Option Instant
  pub completed_at : Option Instant
  pub error_message : Option String
  pub log : Option LogEntry

-- `Math.max(0, count + delta)`, where a delta is given
abbrev pub counted : Option Delta → ℕ → ℕ
counted none count = count
counted (some (adds n)) count = count + n
counted (some (subtracts n)) count = count - n

-- `if (value != null) target = value`
abbrev pub value_replaced : {A : Type 0} → Option A → Option A → Option A
value_replaced none old = old
value_replaced (some a) old = some a

-- `if (payload.error_message)`: an empty text is not a message.
abbrev pub message_replaced : Option String → Option String → Option String
message_replaced none old = old
message_replaced (some t) old = if t === "" then old else some t

abbrev pub first_execution : AiTaskProgressEvent → Uuid → AgentExecution
first_execution e agent_definition_id = record {
  id = e.agent_execution_id;
  pipeline_execution_id = e.pipeline_execution_id;
  agent_definition_id = agent_definition_id;
  status = e.status;
  order_index = e.order_index;
  confidence_input = e.confidence_input;
  confidence_output = e.confidence_output;
  llm_calls_count = 0;
  tokens_consumed = 0;
  error_message = e.error_message;
  started_at = e.started_at;
  completed_at = e.completed_at;
}

abbrev pub progressed : AiTaskProgressEvent → AgentExecution → AgentExecution
progressed e a = record a {
  status = e.status;
  order_index = e.order_index;
  confidence_input = value_replaced e.confidence_input a.confidence_input;
  confidence_output = value_replaced e.confidence_output a.confidence_output;
  llm_calls_count = counted e.llm_calls_delta a.llm_calls_count;
  tokens_consumed = counted e.tokens_delta a.tokens_consumed;
  started_at = value_replaced e.started_at a.started_at;
  completed_at = value_replaced e.completed_at a.completed_at;
  error_message = message_replaced e.error_message a.error_message;
}

abbrev pub advanced : Instant → AiTaskProgressEvent → PipelineExecution → PipelineExecution
advanced now e p = record p {
  total_llm_calls = counted e.llm_calls_delta p.total_llm_calls;
  total_tokens_consumed = counted e.tokens_delta p.total_tokens_consumed;
  last_checkpoint_agent = some e.agent_type;
  status =
      if e.status === AgentExecutionStatus.failed
      then PipelineStatus.paused
      else PipelineStatus.running;
  started_at = some (option_get p.started_at now);
  completed_at =
      if e.status === AgentExecutionStatus.completed || e.status === AgentExecutionStatus.failed
      then none
      else p.completed_at;
}

abbrev pub first_row : {A : Type 0} → List A → Option A
first_row [] = none
first_row (a ∷ rest) = some a

module _ (orm : Orm) where
  -- `ORDER BY created_at ASC LIMIT 1`
  unfoldable pub resolve_agent_definition_id : AgentType → Action Uuid
  resolve_agent_definition_id agent_type = do
    rows ← gets (λ w.
        orm.find_ordered (λ a b. ltb a.created_at b.created_at) (λ d. d.agent_type === agent_type)
          w.ai.agent_definitions)
    definition ← or_throw (first_row rows) (plain_error "Agent definition missing for ${agentType}")
    pure definition.id

  abbrev pub with_agent_log : Uuid → Option LogEntry → World → World
  with_agent_log id none w = w
  with_agent_log id (some l) w = record w {
    ai = record w.ai {
      agent_logs =
          orm.insert
            (record {
              agent_execution_id = id;
              log_level = l.level;
              message = l.message;
              metadata = option_get l.metadata (Json.object Fields.end);
            })
            w.ai.agent_logs;
    };
  }

  -- The rows of one report, once its agent's definition is known.
  unfoldable pub store_progress :
      Instant
      → AiTaskProgressEvent
      → PipelineExecution
      → Option AgentExecution
      → Uuid
      → Action (Unit {0})
  unfolding save_pipeline
  store_progress now e pipeline existing definition_id = do
    modify (λ w. record w {
      ai = record w.ai {
        agent_executions =
            orm.save (progressed e (option_get existing (first_execution e definition_id)))
              w.ai.agent_executions;
      };
    })
    modify (with_agent_log (option_get existing (first_execution e definition_id)).id e.log)
    save_pipeline orm (advanced now e pipeline)
    emit_to_session e.session_id "pipeline.progress" (
        Json.object (
          Fields.field "pipelineExecutionId" (Json.uuid e.pipeline_execution_id) (
            Fields.field "agentExecutionId" (Json.uuid e.agent_execution_id) (
              Fields.field "agentType" (Json.text (agent_type_text e.agent_type)) (
                Fields.field "status" (Json.text (agent_execution_status_text e.status))
                  (Fields.field "progressPct" (Json.number e.progress_pct) Fields.end))))))

  abbrev pub find_agent_execution : AiTaskProgressEvent → World → Option AgentExecution
  find_agent_execution e w =
      orm.find_one
        (λ a. a.id == e.agent_execution_id && a.pipeline_execution_id == e.pipeline_execution_id)
        w.ai.agent_executions

  abbrev pub in_execution : Instant → AiTaskProgressEvent → PipelineExecution → Action (Unit {0})
  in_execution now e pipeline = do
    existing ← gets (find_agent_execution e)
    definition_id ← resolve_agent_definition_id e.agent_type
    store_progress now e pipeline existing definition_id

  abbrev pub of_org : Instant → AiTaskProgressEvent → Action (Unit {0})
  of_org now e =
      find_pipeline_execution orm (some e.pipeline_execution_id) e.session_id
        "Pipeline execution not found for ai.tasks.progress"
      >>= in_execution now e

  unfoldable pub apply_progress : Instant → AiTaskProgressEvent → Action (Unit {0})
  unfolding assert_org_match find_pipeline_execution resolve_agent_definition_id store_progress
  apply_progress now e = assert_org_match orm e.org_id e.session_id >> of_org now e

  unfoldable pub handle_progress_event :
      Instant → AiTaskProgressEvent → Option String → Action (Unit {0})
  unfolding apply_progress
  handle_progress_event now e msg_id =
      handle_once (λ w. w.ai.handled_progress)
        (λ l w. record w { ai = record w.ai { handled_progress = l } })
        (idempotency_key msg_id e.correlation_id "ai.tasks.progress") (apply_progress now e)
