-- ===== src/Sessions/Access.antt =====
-- src/modules/sessions/sessions.service.ts: the types of the requests and the private helpers that
-- the methods share.
use back_end.Prelude.{
  ℕ, String, Bool, not, Option, none, some, ◌==◌, ◌===◌, ◌&&◌, if◌then◌else◌, option_get, nat_Eq,
  option_Eq,
}
use back_end.Database.Json.{Json, Fields}
use back_end.Database.Enums.{
  UserRole, user_role_Eq, SessionMode, session_mode_Eq, session_mode_text, SessionStatus,
  session_status_Eq, session_status_text, PipelineStatus,
}
use back_end.Database.Orm.{Orm}
use back_end.Database.Entities.{Uuid, Instant, Workflow, WorkflowVersion, Session, session_entity}
use back_end.World.{
  World, Action, ok, not_found, forbidden, pure, throw_if, gets, or_throw, ◌>>=◌, ◌>>◌,
}
use back_end.Messaging.Audit.{log, user_entry}

pub record RequestUser : Type 0 where
  pub id : Uuid
  pub org_id : Uuid
  pub role : UserRole

pub record CreateSessionDto : Type 0 where
  pub workflow_id : Uuid
  pub mode : SessionMode

pub record UpdateSessionStatusDto : Type 0 where
  pub status : SessionStatus
  pub reason : String
  pub force : Option Bool

-- `{ key: value }`
abbrev pub single : String → Json → Json
single key value = Json.object (Fields.field key value Fields.end)

abbrev pub status_json : SessionStatus → Json
status_json s = Json.text (session_status_text s)

abbrev pub mode_json : SessionMode → Json
mode_json m = Json.text (session_mode_text m)

abbrev pub instant_json : Option Instant → Json
instant_json none = Json.null
instant_json (some t) = Json.instant t

-- The payload of `emitNeedsReconciliation(saved.id, '', 0)`.
abbrev pub needs_reconciliation_payload : Uuid → Json
needs_reconciliation_payload id = Json.object (
    Fields.field "session_id" (Json.uuid id) (
      Fields.field "report_id" (Json.text "")
        (Fields.field "similarity_score" (Json.number 0) Fields.end)))

-- The row that `overrideStatus` saves.
abbrev pub overridden : SessionStatus → Instant → Session → Session
overridden status now session = record session {
  status = status;
  archived_at = if status === SessionStatus.archived then some now else session.archived_at;
  finalized_at =
      if status === SessionStatus.draft_ready
      then some (option_get session.finalized_at now)
      else session.finalized_at;
}

-- `pipelineProgress`
abbrev pub pipeline_progress : PipelineStatus → ℕ
pipeline_progress PipelineStatus.completed = 100
pipeline_progress PipelineStatus.running = 50
pipeline_progress PipelineStatus.paused = 50
pipeline_progress PipelineStatus.failed = 100
pipeline_progress PipelineStatus.cancelled = 100
pipeline_progress PipelineStatus.pending = 0

unfoldable pub assert_owner_or_admin : Session → RequestUser → Action (Unit {0})
assert_owner_or_admin session caller =
    throw_if (not (caller.role === UserRole.admin) && not (session.user_id == caller.id))
      (forbidden "Only the session owner or an admin can manage this session")

unfoldable pub assert_admin : RequestUser → Action (Unit {0})
assert_admin caller =
    throw_if (not (caller.role === UserRole.admin)) (forbidden "Admin role is required")

abbrev pub in_org : Uuid → Uuid → Workflow → Bool
in_org workflow_id org_id x = x.id == workflow_id && x.org_id == org_id

module _ (orm : Orm) where
  -- The three updates that `archive` waits for together; they touch different tables.
  abbrev pub archive_children : Uuid → Instant → World → World
  archive_children session_id now w = record w {
    messages =
        orm.update (λ m. m.session_id == session_id) (λ m. record m { archived_at = some now })
          w.messages;
    documents =
        orm.update (λ d. d.session_id === some session_id)
          (λ d. record d { archived_at = some now }) w.documents;
    pipeline_executions =
        orm.update (λ p. p.session_id == session_id) (λ p. record p { archived_at = some now })
          w.pipeline_executions;
  }

  unfoldable pub find_workflow_in_org_or_throw : Uuid → Uuid → String → Action Workflow
  find_workflow_in_org_or_throw workflow_id org_id message = do
    found ← gets (λ w. orm.find_one (in_org workflow_id org_id) w.workflows)
    or_throw found (not_found message)

  unfoldable pub find_session_in_org_or_throw : Uuid → Uuid → Action Session
  unfolding find_workflow_in_org_or_throw
  find_session_in_org_or_throw session_id org_id = do
    found ← gets (λ w. orm.find_one (λ x. x.id == session_id) w.sessions)
    session ← or_throw found (not_found "Session not found")
    find_workflow_in_org_or_throw session.workflow_id org_id "Session not found"
    pure session

  unfoldable pub find_latest_workflow_version : Uuid → Action (Option WorkflowVersion)
  find_latest_workflow_version workflow_id = gets (λ w.
      orm.find_latest (λ v. v.version_number) (λ v. v.workflow_id == workflow_id)
        w.workflow_versions)

  unfoldable pub save_session : Session → Action Session
  save_session s w = (ok s, record w { sessions = orm.save s w.sessions })

  unfoldable pub insert_audit_log :
      Uuid → Uuid → String → Option Json → Option Json → Action (Unit {0})
  unfolding log
  insert_audit_log workflow_id actor_id event_type before after =
      log orm (user_entry (some workflow_id) actor_id event_type none before after)
