-- ===== src/AiGateway/Results.antt =====
-- src/modules/ai-gateway/handlers/generation-complete.handler.ts: a result of the AI service becomes
-- the workflow's next version.
use back_end.Prelude.{String, not, Option, none, some, ◌==◌, ◌&&◌}
use back_end.Database.Json.{Json, Fields}
use back_end.Database.Enums.{WorkflowStatus, PipelineStatus, SessionStatus}
use back_end.Database.PipelineEnums.{ComparisonType, comparison_type_text}
use back_end.Database.Orm.{Orm}
use back_end.Database.Entities.{
  Uuid, Workflow, WorkflowVersion, Session, PipelineExecution, workflow_entity,
  pipeline_execution_entity,
}
use back_end.World.{
  Action, of_text, plain_error, pure, throw, throw_if, gets, modify, or_throw, lift, ◌>>=◌, ◌>>◌,
}
use back_end.Messaging.Audit.{log}
use back_end.Messaging.Publisher.{publish, build_msg_id}
use back_end.Messaging.Gateway.{emit_to_session}
use back_end.Sessions.Access.{save_session}
use back_end.Sessions.Fsm.Events.{ai_result_received, transition_session_status}
use back_end.Workflows.Service.{save_workflow, insert_version, latest_version}
use back_end.AiGateway.Handled.{handle_once, idempotency_key}
use back_end.AiGateway.Events.{
  AiTaskResultEvent, Fresh, version_from_result, result_message, result_entry,
  compute_changed_elements, intent_snapshot, generated_snapshot, divergence_report,
}

module _ (orm : Orm) where
  -- `findOne({ where: { id, sessionId } })`; an empty text is no id for the database.
  unfoldable pub find_pipeline_execution : Option Uuid → Uuid → String → Action PipelineExecution
  find_pipeline_execution none session_id missing =
      throw (plain_error "invalid input syntax for type uuid")
  find_pipeline_execution (some id) session_id missing = do
    found ←
        gets
          (λ w. orm.find_one (λ p. p.id == id && p.session_id == session_id) w.pipeline_executions)
    or_throw found (plain_error missing)

  unfoldable pub find_session : Uuid → String → Action Session
  find_session id missing = do
    found ← gets (λ w. orm.find_one (λ s. s.id == id) w.sessions)
    or_throw found (plain_error missing)

  unfoldable pub find_workflow : Uuid → String → Action Workflow
  find_workflow id missing = do
    found ← gets (λ w. orm.find_one (λ x. x.id == id) w.workflows)
    or_throw found (plain_error missing)

  unfoldable pub assert_org_match : Option Uuid → Uuid → Action (Unit {0})
  unfolding find_session find_workflow
  assert_org_match none session_id = pure tt
  assert_org_match (some org_id) session_id = do
    session ← find_session session_id "Session not found for org validation"
    workflow ← find_workflow session.workflow_id "Workflow not found for org validation"
    throw_if (not (workflow.org_id == org_id)) (plain_error "org_id mismatch in NATS payload")

  unfoldable pub create_workflow_version_from_result :
      Fresh → AiTaskResultEvent → Workflow → Session → Action WorkflowVersion
  unfolding insert_version
  create_workflow_version_from_result fresh e workflow session = do
    latest ← gets (latest_version orm workflow.id)
    insert_version orm (version_from_result fresh e workflow session latest)
    pure (version_from_result fresh e workflow session latest)

  unfoldable pub save_pipeline : PipelineExecution → Action (Unit {0})
  save_pipeline p =
      modify (λ w. record w { pipeline_executions = orm.save p w.pipeline_executions })

  unfoldable pub mark_workflow_updated : Uuid → WorkflowVersion → Action (Unit {0})
  unfolding publish
  mark_workflow_updated workflow_id version = do
    changed ← lift (compute_changed_elements version.elements_json)
    publish "workflow.events.updated"
        (Json.object (
          Fields.field "workflow_id" (Json.uuid workflow_id) (
            Fields.field "version_number" (Json.number version.version_number) (
              Fields.field "changed_elements" (Json.array changed) (
                Fields.field "source" (Json.text "ai")
                  (Fields.field "correlation_id" (Json.text "") Fields.end))))))
        (build_msg_id (of_text "") "workflow.events.updated" none)

  -- The two snapshots and the report that compares them.
  unfoldable pub open_report :
      Fresh → Session → Workflow → WorkflowVersion → PipelineExecution → Action (Unit {0})
  open_report fresh session workflow version pipeline = do
    nodes ← gets (λ w. orm.find (λ n. n.session_id == session.id) w.ai.kg_nodes)
    edges ← gets (λ w. orm.find (λ e. e.session_id == session.id) w.ai.kg_edges)
    modify (λ w. record w {
      ai = record w.ai {
        graph_snapshots =
            orm.insert (intent_snapshot fresh session workflow.id nodes edges) w.ai.graph_snapshots;
      };
    })
    modify (λ w. record w {
      ai = record w.ai {
        graph_snapshots =
            orm.insert (generated_snapshot fresh session workflow.id version) w.ai.graph_snapshots;
      };
    })
    modify (λ w. record w {
      ai = record w.ai {
        divergence_reports =
            orm.insert (divergence_report fresh workflow.id pipeline.id) w.ai.divergence_reports;
      };
    })

  unfoldable pub publish_ai_task_divergence :
      Fresh → AiTaskResultEvent → Session → Action (Unit {0})
  unfolding publish
  publish_ai_task_divergence fresh e session =
      publish "ai.tasks.divergence"
        (Json.object (
          Fields.field "correlation_id" (Json.text e.correlation_id) (
            Fields.field "report_id" (Json.uuid fresh.report_id) (
              Fields.field "graph_a_id" (Json.uuid fresh.intent_id) (
                Fields.field "graph_b_id" (Json.uuid fresh.generated_id) (
                  Fields.field "comparison_type"
                    (Json.text (comparison_type_text ComparisonType.intent_vs_generated))
                    (Fields.field "session_id" (Json.uuid session.id) Fields.end)))))))
        (build_msg_id (of_text e.correlation_id) "ai.tasks.divergence" (some fresh.report_id))

  abbrev pub emit_workflow_updated :
      AiTaskResultEvent → Session → Workflow → WorkflowVersion → Action (Unit {0})
  emit_workflow_updated e session workflow version = emit_to_session session.id "workflow.updated" (
      Json.object (
        Fields.field "workflowId" (Json.uuid workflow.id) (
          Fields.field "versionNumber" (Json.number version.version_number)
            (Fields.field "confidence" (Json.number e.confidence) Fields.end))))

  -- The session and the execution are saved, a message and an audit row are added.
  unfoldable pub save_result :
      Fresh
      → AiTaskResultEvent
      → PipelineExecution
      → Session
      → Workflow
      → Workflow
      → WorkflowVersion
      → SessionStatus
      → Action Session
  unfolding save_session save_pipeline log
  save_result fresh e pipeline session workflow workflow' version status = do
    session' ←
        save_session orm (record session { confidence_score = e.confidence; status = status })
    save_pipeline (record pipeline {
      status = PipelineStatus.completed;
      final_confidence = some e.confidence;
      completed_at = some fresh.now;
      error_summary = none;
    })
    modify (λ w. record w {
      messages = orm.insert (result_message fresh e session' version.version_number) w.messages;
    })
    log orm (result_entry workflow session workflow' session' e.confidence)
    pure session'

  -- The graphs of what was asked for and of what was generated are sent to be compared.
  unfoldable pub compare_graphs :
      Fresh
      → AiTaskResultEvent
      → PipelineExecution
      → Session
      → Workflow
      → WorkflowVersion
      → Action (Unit {0})
  unfolding open_report publish_ai_task_divergence
  compare_graphs fresh e pipeline session workflow version = do
    open_report fresh session workflow version pipeline
    publish_ai_task_divergence fresh e session
    emit_workflow_updated e session workflow version

  abbrev pub announce :
      Fresh
      → AiTaskResultEvent
      → PipelineExecution
      → Workflow
      → WorkflowVersion
      → Session
      → Action (Unit {0})
  announce fresh e pipeline workflow version session = do
    mark_workflow_updated workflow.id version
    compare_graphs fresh e pipeline session workflow version

  abbrev pub save_and_announce :
      Fresh
      → AiTaskResultEvent
      → PipelineExecution
      → Session
      → Workflow
      → Workflow
      → WorkflowVersion
      → SessionStatus
      → Action (Unit {0})
  save_and_announce fresh e pipeline session workflow workflow' version status = do
    session' ← save_result fresh e pipeline session workflow workflow' version status
    announce fresh e pipeline workflow' version session'

  -- What `handle` does once the workflow has its new version.
  unfoldable pub finish_result :
      Fresh
      → AiTaskResultEvent
      → PipelineExecution
      → Session
      → Workflow
      → Workflow
      → WorkflowVersion
      → Action (Unit {0})
  finish_result fresh e pipeline session workflow workflow' version = do
    status ← lift (transition_session_status session.status ai_result_received (some session.mode))
    save_and_announce fresh e pipeline session workflow workflow' version status

  -- `handle`, once the workflow is found.
  unfoldable pub store_result :
      Fresh → AiTaskResultEvent → PipelineExecution → Session → Workflow → Action (Unit {0})
  unfolding create_workflow_version_from_result save_workflow finish_result
  store_result fresh e pipeline session workflow = do
    version ← create_workflow_version_from_result fresh e workflow session
    saved ← save_workflow orm (record workflow {
      current_version = version.version_number;
      status = WorkflowStatus.pending_review;
    })
    finish_result fresh e pipeline session workflow saved version

  unfoldable pub apply_result : Fresh → AiTaskResultEvent → Action (Unit {0})
  unfolding find_pipeline_execution find_session assert_org_match find_workflow store_result
  apply_result fresh e = do
    pipeline ←
        find_pipeline_execution e.pipeline_execution_id e.session_id
          "Pipeline execution not found for ai.tasks.result"
    session ← find_session e.session_id "Session not found for ai.tasks.result"
    assert_org_match e.org_id session.id
    workflow ← find_workflow session.workflow_id "Workflow not found for ai.tasks.result"
    store_result fresh e pipeline session workflow

  unfoldable pub handle_result : Fresh → AiTaskResultEvent → Option String → Action (Unit {0})
  unfolding apply_result
  handle_result fresh e msg_id =
      handle_once (λ w. w.ai.handled_results)
        (λ l w. record w { ai = record w.ai { handled_results = l } })
        (idempotency_key msg_id e.correlation_id "ai.tasks.result") (apply_result fresh e)
