-- ===== src/Sessions/Service.antt =====
-- src/modules/sessions/sessions.service.ts, method by method. The new id of a created row and the
-- time of the request are arguments; `dispatchAiTask` is not modelled here.
use back_end.Prelude.{
  ℕ, false, not, Option, none, some, ◌==◌, ◌===◌, ◌&&◌, if◌then◌else◌, option_get, option_map,
  nat_Eq, option_Eq,
}
use back_end.Database.Json.{Json, Fields}
use back_end.Database.Enums.{
  user_role_Eq, SessionMode, session_mode_Eq, SessionStatus, session_status_Eq, AgentType,
}
use back_end.Database.Orm.{Orm}
use back_end.Database.Entities.{Uuid, Instant, Score, Session, session_entity}
use back_end.World.{
  Action, not_found, conflict, pure, throw_if, gets, modify, or_throw, lift, when, ◌>>=◌, ◌>>◌,
}
use back_end.Messaging.Publisher.{publish_session_finalized}
use back_end.Messaging.Gateway.{emit_to_session}
use back_end.Sessions.Fsm.Events.{
  user_finalizes, user_deletes, transition_session_status, can_transition_to,
}
use back_end.Sessions.Access.{
  RequestUser, CreateSessionDto, UpdateSessionStatusDto, single, status_json, mode_json,
  needs_reconciliation_payload, overridden, pipeline_progress, archive_children,
  find_workflow_in_org_or_throw, find_session_in_org_or_throw, find_latest_workflow_version,
  save_session, insert_audit_log, assert_owner_or_admin, assert_admin,
}

pub record WorkflowState : Type 0 where
  pub session_id : Uuid
  pub workflow_id : Uuid
  pub version_number : Option ℕ
  pub elements_json : Option Json

pub record Progress : Type 0 where
  pub current_agent : Option AgentType
  pub progress_pct : ℕ
  pub overall_confidence : Score

-- The row that `createSession` saves.
abbrev pub new_session : Uuid → Instant → Uuid → SessionMode → RequestUser → Session
new_session new_id now workflow_id mode caller = record {
  id = new_id;
  workflow_id = workflow_id;
  user_id = caller.id;
  mode = mode;
  status = SessionStatus.created;
  confidence_score = 0;
  created_at = now;
  finalized_at = none;
  archived_at = none;
}

module _ (orm : Orm) where
  unfoldable pub create_session : Uuid → Instant → CreateSessionDto → RequestUser → Action Session
  unfolding find_workflow_in_org_or_throw save_session
  create_session new_id now dto caller = do
    workflow ← find_workflow_in_org_or_throw orm dto.workflow_id caller.org_id "Workflow not found"
    save_session orm (new_session new_id now workflow.id dto.mode caller)

  unfoldable pub get_session : Uuid → RequestUser → Action Session
  unfolding find_session_in_org_or_throw
  get_session session_id caller = find_session_in_org_or_throw orm session_id caller.org_id

  unfoldable pub get_session_by_workflow_id : Uuid → RequestUser → Action Session
  unfolding find_workflow_in_org_or_throw
  get_session_by_workflow_id workflow_id caller = do
    find_workflow_in_org_or_throw orm workflow_id caller.org_id "Workflow not found"
    found ←
        gets
          (λ w. orm.find_latest (λ s. s.created_at) (λ s. s.workflow_id == workflow_id) w.sessions)
    or_throw found (not_found "No session found for workflow ${workflowId}")

  unfoldable pub update_mode : Uuid → SessionMode → RequestUser → Action Session
  unfolding find_session_in_org_or_throw assert_owner_or_admin save_session insert_audit_log
  update_mode session_id mode caller = do
    session ← find_session_in_org_or_throw orm session_id caller.org_id
    assert_owner_or_admin session caller
    if session.mode === mode then pure session else (do
      saved ← save_session orm (record session { mode = mode })
      insert_audit_log orm session.workflow_id caller.id "SESSION_MODE_UPDATED"
          (some (single "mode" (mode_json session.mode))) (some (single "mode" (mode_json mode)))
      pure saved)

  unfoldable pub finalize : Uuid → Instant → RequestUser → Action Session
  unfolding find_session_in_org_or_throw find_workflow_in_org_or_throw assert_owner_or_admin
      save_session find_latest_workflow_version insert_audit_log publish_session_finalized
  finalize session_id now caller = do
    session ← find_session_in_org_or_throw orm session_id caller.org_id
    assert_owner_or_admin session caller
    find_workflow_in_org_or_throw orm session.workflow_id caller.org_id "Workflow not found"
    status ← lift (transition_session_status session.status user_finalizes (some session.mode))
    saved ← save_session orm (record session { status = status; finalized_at = some now })
    latest ← find_latest_workflow_version orm session.workflow_id
    insert_audit_log orm session.workflow_id caller.id "SESSION_FINALIZED"
        (some (single "status" (status_json session.status)))
        (some (
          Json.object (
            Fields.field "status" (status_json status)
              (Fields.field "finalized_at" (Json.instant now) Fields.end))))
    publish_session_finalized (record {
      session_id = saved.id;
      workflow_id = saved.workflow_id;
      final_version_number = elim latest [ none ↦ 0 | some v ↦ v.version_number ];
      final_confidence = saved.confidence_score;
      finalized_at = now;
    })
    pure saved

  unfoldable pub archive : Uuid → Instant → RequestUser → Action Session
  unfolding find_session_in_org_or_throw assert_owner_or_admin save_session insert_audit_log
  archive session_id now caller = do
    session ← find_session_in_org_or_throw orm session_id caller.org_id
    assert_owner_or_admin session caller
    status ← lift (transition_session_status session.status user_deletes (some session.mode))
    saved ← save_session orm (record session { status = status; archived_at = some now })
    modify (archive_children orm session.id now)
    insert_audit_log orm session.workflow_id caller.id "SESSION_ARCHIVED"
        (some (single "status" (status_json session.status)))
        (some (
          Json.object (
            Fields.field "status" (status_json status)
              (Fields.field "archived_at" (Json.instant now) Fields.end))))
    pure saved

  unfoldable pub override_status :
      Uuid → Instant → UpdateSessionStatusDto → RequestUser → Action Session
  unfolding find_session_in_org_or_throw assert_admin save_session insert_audit_log
  override_status session_id now dto caller = do
    assert_admin caller
    session ← find_session_in_org_or_throw orm session_id caller.org_id
    throw_if
        (not (option_get dto.force false)
          && not (can_transition_to session.status dto.status (some session.mode)))
        (conflict "Target status violates the session FSM")
    saved ← save_session orm (overridden dto.status now session)
    when (saved.status === SessionStatus.needs_reconciliation) (
        emit_to_session saved.id "session.needs_reconciliation"
          (needs_reconciliation_payload saved.id))
    insert_audit_log orm session.workflow_id caller.id "SESSION_STATUS_OVERRIDDEN"
        (some (single "status" (status_json session.status)))
        (some (
          Json.object (
            Fields.field "status" (status_json dto.status) (
              Fields.field "reason" (Json.text dto.reason)
                (Fields.field "force" (Json.boolean (option_get dto.force false)) Fields.end)))))
    pure saved

  unfoldable pub get_workflow_state : Uuid → RequestUser → Action WorkflowState
  unfolding find_session_in_org_or_throw find_latest_workflow_version
  get_workflow_state session_id caller = do
    session ← find_session_in_org_or_throw orm session_id caller.org_id
    latest ← find_latest_workflow_version orm session.workflow_id
    pure (record {
      session_id = session.id;
      workflow_id = session.workflow_id;
      version_number = option_map (λ v. v.version_number) latest;
      elements_json = option_map (λ v. v.elements_json) latest;
    })

  unfoldable pub get_progress : Uuid → RequestUser → Action Progress
  unfolding find_session_in_org_or_throw
  get_progress session_id caller = do
    session ← find_session_in_org_or_throw orm session_id caller.org_id
    latest ← gets (λ w.
        orm.find_latest (λ p. p.created_at) (λ p. p.session_id == session.id) w.pipeline_executions)
    pure (elim latest [
      | none ↦ record {
        current_agent = none;
        progress_pct = 0;
        overall_confidence = session.confidence_score;
      }
      | some p ↦ record {
        current_agent = p.last_checkpoint_agent;
        progress_pct = pipeline_progress p.status;
        overall_confidence = option_get p.final_confidence session.confidence_score;
      }
    ])
