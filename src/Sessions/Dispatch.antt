-- ===== src/Sessions/Dispatch.antt =====
-- `dispatchAiTask` of src/modules/sessions/sessions.service.ts.
use back_end.Prelude.{String, Option, none, some, ◌===◌, ◌||◌, if◌then◌else◌, option_get}
use back_end.Database.Json.{Json, Fields}
use back_end.Database.Enums.{SessionStatus, session_status_Eq, PipelineTaskType, AgentType}
use back_end.Database.PipelineEnums.{pipeline_task_type_text}
use back_end.Database.Orm.{Orm}
use back_end.Database.Entities.{Uuid, Session, session_entity}
use back_end.World.{Action, pure, lift, ◌>>=◌, ◌>>◌}
use back_end.Sessions.Fsm.Events.{first_user_message, ai_task_published, transition_session_status}
use back_end.Sessions.Access.{
  RequestUser, find_session_in_org_or_throw, save_session, insert_audit_log, assert_owner_or_admin,
}
use back_end.AiGateway.Tasks.{AiTask, TaskDraw, PublishedTask, publish_ai_task}

pub record DispatchOptions : Type 0 where
  pub task_type : Option PipelineTaskType
  pub resume_from_checkpoint : Option AgentType

abbrev pub task_of : Session → Json → RequestUser → DispatchOptions → AiTask
task_of session input caller options = record {
  session_id = session.id;
  task_type = option_get options.task_type PipelineTaskType.full_pipeline;
  mode = session.mode;
  input = input;
  triggered_by = some caller.id;
  resume_from_checkpoint = options.resume_from_checkpoint;
}

module _ (orm : Orm) where
  -- The two transitions of a new session are saved as one.
  abbrev pub greet_and_start : Session → Action (Unit {0})
  greet_and_start session = do
    greeted ← lift (transition_session_status session.status first_user_message (some session.mode))
    started ← lift (transition_session_status greeted ai_task_published (some session.mode))
    save_session orm (record session { status = started })
    pure tt

  abbrev pub start_session : Session → Action (Unit {0})
  start_session session = do
    started ← lift (transition_session_status session.status ai_task_published (some session.mode))
    save_session orm (record session { status = started })
    pure tt

  unfoldable pub move_session : Session → Action (Unit {0})
  unfolding save_session
  move_session session =
      if session.status === SessionStatus.created
      then greet_and_start session
      else if session.status === SessionStatus.awaiting_input
          || session.status === SessionStatus.in_elicitation
      then start_session session
      else pure tt

  abbrev pub log_dispatch : Session → RequestUser → AiTask → PublishedTask → Action (Unit {0})
  log_dispatch session caller task result =
      insert_audit_log orm session.workflow_id caller.id "AI_TASK_DISPATCHED" none (
        some (
          Json.object (
            Fields.field "pipeline_execution_id" (Json.uuid result.pipeline_execution_id) (
              Fields.field "task_type" (Json.text (pipeline_task_type_text task.task_type))
                (Fields.field "nats_message_id" (Json.text result.nats_message_id) Fields.end)))))

module _ (orm : Orm) (stringify : Json → String) (uuid_text : Uuid → String) where
  unfoldable pub dispatch_ai_task :
      TaskDraw → Uuid → Json → RequestUser → DispatchOptions → Action PublishedTask
  unfolding find_session_in_org_or_throw assert_owner_or_admin publish_ai_task move_session
      insert_audit_log
  dispatch_ai_task d session_id input caller options = do
    session ← find_session_in_org_or_throw orm session_id caller.org_id
    assert_owner_or_admin session caller
    result ← publish_ai_task orm stringify uuid_text d (task_of session input caller options)
    move_session orm session
    log_dispatch orm session caller (task_of session input caller options) result
    pure result
