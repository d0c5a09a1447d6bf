-- ===== src/AiGateway/Subscriber.antt =====
-- src/modules/ai-gateway/ai-gateway.subscriber.service.ts: a result as the AI service sends it is
-- completed from the session's latest execution, and handled.
use back_end.Prelude.{String, Option, none, some, ◌==◌, refl, option_get, option_map}
use back_end.Database.Json.{Json, Fields}
use back_end.Database.Orm.{Orm}
use back_end.Database.Entities.{Uuid, Score, Workflow, Session, PipelineExecution}
use back_end.World.{World, Action, pure, gets, ◌>>=◌}
use back_end.Messaging.Gateway.{emit_to_session}
use back_end.Workflows.Versions.{HasNumberedVersions}
use back_end.AiGateway.Events.{AiTaskResultEvent, Fresh}
use back_end.AiGateway.Results.{handle_result}
use back_end.AiGateway.Numbers.{result-HasNumberedVersions}

-- The payload of ai.tasks.result, whose session_id is an id.
pub record ResultMessage : Type 0 where
  pub session_id : Uuid
  pub correlation_id : Option String
  pub pipeline_execution_id : Option Uuid
  pub elements_json : Option Json
  pub workflow_json : Option Json
  pub confidence : Option Score
  pub ai_summary : Option String
  pub summary : Option String

-- The simplified payload of ai.tasks.progress.
pub record ProgressMessage : Type 0 where
  pub session_id : Option Uuid
  pub agent_name : Option Json
  pub status : Option Json
  pub progress_pct : Option Json
  pub message : Option Json

-- `a ?? b`, where b may be absent as well
abbrev pub or_else : {A : Type 0} → Option A → Option A → Option A
or_else none other = other
or_else (some a) other = some a

abbrev pub message_id_of : Option PipelineExecution → Option String
message_id_of none = none
message_id_of (some p) = p.nats_message_id

module _ (orm : Orm) where
  abbrev pub latest_pipeline : Uuid → World → Option PipelineExecution
  latest_pipeline session_id w =
      orm.find_latest (λ p. p.created_at) (λ p. p.session_id == session_id) w.pipeline_executions

  abbrev pub org_of : Option Session → World → Option Uuid
  org_of none w = none
  org_of (some s) w =
      option_map (λ (x : Workflow). x.org_id)
        (orm.find_one (λ x. x.id == s.workflow_id) w.workflows)

  -- What stands for the correlation id that nothing gives is drawn: `enriched-${Date.now()}`.
  abbrev pub enriched : String → ResultMessage → World → AiTaskResultEvent
  enriched drawn m w =
      let latest = latest_pipeline m.session_id w in
      record {
        correlation_id = option_get m.correlation_id (option_get (message_id_of latest) drawn);
        session_id = m.session_id;
        org_id = org_of (orm.find_one (λ s. s.id == m.session_id) w.sessions) w;
        pipeline_execution_id =
            or_else m.pipeline_execution_id (option_map (λ (p : PipelineExecution). p.id) latest);
        workflow_json =
            some (option_get m.elements_json (option_get m.workflow_json (Json.object Fields.end)));
        elsa_json = m.workflow_json;
        confidence = option_get m.confidence 0;
        summary = some (option_get m.ai_summary (option_get m.summary "AI pipeline completed"));
        version_number = none;
      }

  unfoldable pub enrich_result_payload : String → ResultMessage → Action AiTaskResultEvent
  enrich_result_payload drawn m = gets (enriched drawn m)

  -- The handler of the subscription to ai.tasks.result, which hands on no message id.
  unfoldable pub handle_message : Fresh → String → ResultMessage → Action (Unit {0})
  unfolding enrich_result_payload handle_result
  handle_message fresh drawn m = do
    event ← enrich_result_payload drawn m
    handle_result orm fresh event none

  -- The handler of the subscription to ai.tasks.progress. A payload without a session is passed over.
  unfoldable pub handle_progress : ProgressMessage → Action (Unit {0})
  handle_progress m = told m.session_id
    where
      told : Option Uuid → Action (Unit {0})
      told none = pure tt
      told (some id) = emit_to_session id "pipeline.progress" (
          Json.object (
            Fields.field "agentName" (option_get m.agent_name (Json.text "pipeline")) (
              Fields.field "status" (option_get m.status (Json.text "running")) (
                Fields.field "progressPct" (option_get m.progress_pct (Json.number 0))
                  (Fields.field "message" (option_get m.message (Json.text "")) Fields.end)))))

  -- A result that the AI service sends keeps every workflow's versions numbered from 1 to its current
  -- version, also when it is refused half-way and when it was handled before.
  pub message-HasNumberedVersions :
      (fresh : Fresh) (drawn : String) (m : ResultMessage) (w : World)
      → HasNumberedVersions w
      → HasNumberedVersions (handle_message fresh drawn m w).1
  unfolding handle_message enrich_result_payload
  message-HasNumberedVersions fresh drawn m w h =
      result-HasNumberedVersions orm fresh (enriched drawn m w) w refl h none
