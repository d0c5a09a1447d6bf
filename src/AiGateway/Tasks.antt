-- ===== src/AiGateway/Tasks.antt =====
-- src/modules/ai-gateway/ai-gateway.service.ts: a task for the AI service, with the row of its
-- execution, and the rules and skills that go before it.
use back_end.Prelude.{
  String, Bool, not, Option, none, some, List, [], ◌∷◌, ◌==◌, ◌&&◌, ◌||◌, ltb, take, bool_Eq, ◌===◌,
}
use Prim.Native.String.{◌++◌ as ◌+++◌}
use back_end.Database.Json.{Json, Items, Fields}
use back_end.Database.Enums.{
  SessionMode, session_mode_text, PipelineTaskType, PipelineStatus, AgentType, agent_type_text,
}
use back_end.Database.PipelineEnums.{pipeline_task_type_text}
use back_end.Database.Orm.{Orm}
use back_end.Database.Entities.{
  Uuid, Instant, Session, PipelineExecution, pipeline_execution_entity,
}
use back_end.Database.PipelineEntities.{Skill}
use back_end.World.{Action, plain_error, of_text, pure, gets, or_throw, ◌>>=◌, ◌>>◌}
use back_end.Messaging.Publisher.{publish, build_msg_id}
use back_end.Rules.Context.{list_active_rules_for_context}
use back_end.AiGateway.Results.{find_session, save_pipeline}

-- The parameters of `publishAiTask`.
pub record AiTask : Type 0 where
  pub session_id : Uuid
  pub task_type : PipelineTaskType
  pub mode : SessionMode
  pub input : Json
  pub triggered_by : Option Uuid
  pub resume_from_checkpoint : Option AgentType

-- What a task draws: the id of its execution, the time, the correlation id of the request.
pub record TaskDraw : Type 0 where
  pub execution_id : Uuid
  pub now : Instant
  pub correlation_id : String

pub record PublishedTask : Type 0 where
  pub pipeline_execution_id : Uuid
  pub nats_message_id : String

abbrev pub pending_execution : TaskDraw → AiTask → PipelineExecution
pending_execution d t = record {
  id = d.execution_id;
  session_id = t.session_id;
  task_type = t.task_type;
  mode = t.mode;
  status = PipelineStatus.pending;
  input_payload = t.input;
  retry_count = 0;
  last_checkpoint_agent = none;
  triggered_by = t.triggered_by;
  nats_message_id = none;
  started_at = none;
  completed_at = none;
  total_llm_calls = 0;
  total_tokens_consumed = 0;
  final_confidence = none;
  error_summary = none;
  created_at = d.now;
  archived_at = none;
}

-- `order: { isMandatory: 'DESC', updatedAt: 'DESC' }`
abbrev pub skill_before : Skill → Skill → Bool
skill_before a b =
    (a.is_mandatory && not b.is_mandatory)
    || (a.is_mandatory === b.is_mandatory && ltb b.updated_at a.updated_at)

abbrev pub skill_ids : List Skill → Items
skill_ids [] = Items.nil
skill_ids (s ∷ rest) = Items.cons (Json.uuid s.id) (skill_ids rest)

-- A property that is there only with a value.
abbrev pub with_optional : {A : Type 0} → String → (A → Json) → Option A → Fields → Fields
with_optional key f none rest = rest
with_optional key f (some a) rest = Fields.field key (f a) rest

abbrev pub task_payload : TaskDraw → AiTask → Uuid → Uuid → Json
task_payload d t session_id org_id = Json.object (
    Fields.field "correlation_id" (Json.text d.correlation_id) (
      Fields.field "session_id" (Json.uuid session_id) (
        Fields.field "org_id" (Json.uuid org_id) (
          Fields.field "task_type" (Json.text (pipeline_task_type_text t.task_type)) (
            Fields.field "mode" (Json.text (session_mode_text t.mode)) (
              Fields.field "input" t.input (
                Fields.field "pipeline_execution_id" (Json.uuid d.execution_id) (
                  with_optional "resume_from_checkpoint" (λ a. Json.text (agent_type_text a))
                    t.resume_from_checkpoint
                    (with_optional "triggered_by" Json.uuid t.triggered_by Fields.end)))))))))

module _ (orm : Orm) (stringify : Json → String) (uuid_text : Uuid → String) where
  -- The SQL joins the session with its workflow.
  unfoldable pub resolve_org_id_for_session : Session → Action Uuid
  resolve_org_id_for_session session = do
    found ← gets (λ w. orm.find_one (λ s. s.id == session.id) w.sessions)
    joined ← or_throw found (plain_error "Unable to resolve orgId from session")
    placed ← gets (λ w. orm.find_one (λ x. x.id == joined.workflow_id) w.workflows)
    workflow ← or_throw placed (plain_error "Unable to resolve orgId from session")
    pure workflow.org_id

  unfoldable pub publish_ai_context_load :
      TaskDraw → Uuid → Uuid → Items → Items → Action (Unit {0})
  unfolding publish
  publish_ai_context_load d session_id org_id rules skills =
      publish "ai.context.load"
        (Json.object (
          Fields.field "correlation_id" (Json.text d.correlation_id) (
            Fields.field "session_id" (Json.uuid session_id) (
              Fields.field "org_id" (Json.uuid org_id) (
                Fields.field "active_rules" (Json.array rules)
                  (Fields.field "skill_ids" (Json.array skills) Fields.end))))))
        (build_msg_id (of_text d.correlation_id) "ai.context.load" none)

  unfoldable pub publish_ai_task_new : TaskDraw → AiTask → Uuid → Uuid → Action (Unit {0})
  unfolding publish
  publish_ai_task_new d t session_id org_id =
      publish "ai.tasks.new" (task_payload d t session_id org_id)
        (build_msg_id (of_text d.correlation_id) "ai.tasks.new" (some d.execution_id))

  abbrev pub nats_message_id : TaskDraw → String
  nats_message_id d = d.correlation_id +++ (":ai.tasks.new:" +++ uuid_text d.execution_id)

  -- The rules and the skills go before the task.
  unfoldable pub load_context : TaskDraw → Uuid → Uuid → Action (Uuid × Uuid)
  unfolding list_active_rules_for_context publish_ai_context_load
  load_context d session_id org_id = do
    rules ← list_active_rules_for_context orm stringify d.now org_id session_id
    skills ←
        gets
          (λ w. orm.find_ordered skill_before (λ s. s.org_id == org_id && s.is_active) w.ai.skills)
    publish_ai_context_load d session_id org_id rules (skill_ids (take 50 skills))
    pure (session_id, org_id)

  abbrev pub open_execution : TaskDraw → AiTask → Session → Uuid → Action (Uuid × Uuid)
  open_execution d t session org_id = do
    save_pipeline orm (pending_execution d t)
    load_context d session.id org_id

  abbrev pub place_session : TaskDraw → AiTask → Session → Action (Uuid × Uuid)
  place_session d t session = resolve_org_id_for_session session >>= open_execution d t session

  -- The execution's row is stored and its context is sent.
  unfoldable pub prepare_task : TaskDraw → AiTask → Action (Uuid × Uuid)
  unfolding find_session resolve_org_id_for_session save_pipeline load_context
  prepare_task d t =
      find_session orm t.session_id "Session not found when publishing ai task"
      >>= place_session d t

  unfoldable pub note_message : TaskDraw → AiTask → Action PublishedTask
  unfolding save_pipeline
  note_message d t = do
    save_pipeline orm
        (record (pending_execution d t) { nats_message_id = some (nats_message_id d) })
    pure (record { pipeline_execution_id = d.execution_id; nats_message_id = nats_message_id d })

  unfoldable pub send_task : TaskDraw → AiTask → Uuid × Uuid → Action PublishedTask
  unfolding publish_ai_task_new note_message
  send_task d t (session_id, org_id) = publish_ai_task_new d t session_id org_id >> note_message d t

  unfoldable pub publish_ai_task : TaskDraw → AiTask → Action PublishedTask
  unfolding prepare_task send_task
  publish_ai_task d t = prepare_task d t >>= send_task d t
