-- ===== src/Sessions/Outcomes.antt =====
-- What each method of src/modules/sessions/sessions.service.ts does to the session that its
-- lookup finds, on every branch.
use back_end.Prelude.{
  ℕ, String, Bool, true, false, ◌≡◌, none, some, ◌==◌, ◌===◌, ◌||◌, if◌then◌else◌, arith,
  option_get,
}
use back_end.Database.Json.{Json, Fields}
use back_end.Database.Enums.{
  UserRole, user_role_Eq, SessionMode, session_mode_Eq, SessionStatus, session_status_Eq,
}
use back_end.Database.Orm.{Orm}
use back_end.Database.Entities.{
  Uuid, Instant, Workflow, Session, WorkflowVersion, AuditLog, session_entity,
}
use back_end.World.{
  World, ok, err, forbidden, conflict, nats_error, published, emitted, session_room, of_id,
}
use back_end.Messaging.Audit.{with_log, user_entry}
use back_end.Messaging.Publisher.{
  with_sent, build_msg_id, SessionFinalizedEvent, session_finalized_payload,
  publish_session_finalized,
}
use back_end.Sessions.Fsm.Events.{user_finalizes, transition_session_status, can_transition_to}
use back_end.Sessions.Fsm.Diagram.{delete-transition}
use back_end.Sessions.Access.{
  RequestUser, UpdateSessionStatusDto, single, status_json, mode_json, overridden,
  needs_reconciliation_payload, archive_children, find_workflow_in_org_or_throw,
  find_session_in_org_or_throw,
}
use back_end.Sessions.Service.{update_mode, finalize, archive, override_status}

-- The test of `assertOwnerOrAdmin`.
abbrev pub may_manage : Session → RequestUser → Bool
may_manage session caller = caller.role === UserRole.admin || session.user_id == caller.id

-- The audit row of an act on a session.
abbrev pub session_log : Session → RequestUser → String → Json → Json → AuditLog
session_log s caller event before after =
    (user_entry (some s.workflow_id) caller.id event none (some before) (some after)).row

abbrev pub archived : Session → Instant → Session
archived s now = record s { status = SessionStatus.archived; archived_at = some now }

abbrev archived_json : Instant → Json
archived_json now = Json.object (
    Fields.field "status" (status_json SessionStatus.archived)
      (Fields.field "archived_at" (Json.instant now) Fields.end))

abbrev pub in_mode : Session → SessionMode → Session
in_mode s mode = record s { mode = mode }

abbrev pub finalized : Session → Instant → Session
finalized s now = record s { status = SessionStatus.draft_ready; finalized_at = some now }

module _ (orm : Orm) where
  -- The table with the session saved.
  abbrev pub with_session : Session → World → World
  with_session s w = record w { sessions = orm.save s w.sessions }

  -- The owner or an administrator archives the session: its row, its children and one audit row are
  -- written; anybody else is refused and nothing changes.
  pub archive_outcome :
      (sid : Uuid) (now : Instant) (caller : RequestUser) (w : World) (s : Session)
      → find_session_in_org_or_throw orm sid caller.org_id w ≡ (ok s, w)
      → archive orm sid now caller w ≡ (
          if may_manage s caller
          then (
            ok (archived s now),
            with_log orm
                (session_log s caller "SESSION_ARCHIVED"
                  (single "status" (status_json s.status))
                  (archived_json now))
                (archive_children orm s.id now (with_session (archived s now) w)),
          )
          else (err (forbidden "Only the session owner or an admin can manage this session"), w))
  unfolding archive
  archive_outcome sid now caller w s h = ground (arith, delete-transition s.status (some s.mode))

  -- The owner or an administrator sets the mode: the row and one audit row are written, and nothing
  -- is where the mode is the same; anybody else is refused and nothing changes.
  pub update_mode_outcome :
      (sid : Uuid) (mode : SessionMode) (caller : RequestUser) (w : World) (s : Session)
      → find_session_in_org_or_throw orm sid caller.org_id w ≡ (ok s, w)
      → update_mode orm sid mode caller w ≡ (
          if may_manage s caller
          then (if s.mode === mode then (ok s, w) else (
            ok (in_mode s mode),
            with_log orm
                (session_log s caller "SESSION_MODE_UPDATED"
                  (single "mode" (mode_json s.mode))
                  (single "mode" (mode_json mode)))
                (with_session (in_mode s mode) w),
          ))
          else (err (forbidden "Only the session owner or an admin can manage this session"), w))
  unfolding update_mode
  update_mode_outcome sid mode caller w s h = ground arith

  abbrev pub finalized_world : Session → Instant → RequestUser → World → World
  finalized_world s now caller w =
      with_log orm
        (session_log s caller "SESSION_FINALIZED" (single "status" (status_json s.status)) (
          Json.object (
            Fields.field "status" (status_json SessionStatus.draft_ready)
              (Fields.field "finalized_at" (Json.instant now) Fields.end))))
        (with_session (finalized s now) w)

  -- The number of the latest version, 0 where there is none.
  abbrev pub latest_number : Uuid → World → ℕ
  latest_number workflow_id w =
      elim (orm.find_latest (λ v. v.version_number)
        (λ (v : WorkflowVersion). v.workflow_id == workflow_id) w.workflow_versions) [
          | none ↦ 0
          | some v ↦ v.version_number
        ]

  abbrev pub finalized_event : Session → Instant → World → SessionFinalizedEvent
  finalized_event s now w = record {
    session_id = s.id;
    workflow_id = s.workflow_id;
    final_version_number = latest_number s.workflow_id w;
    final_confidence = s.confidence_score;
    finalized_at = now;
  }

  -- A session that may be finalised is, and the event is sent if the broker takes it; if it does
  -- not, the caller sees an error and the session is finalised all the same.
  pub finalize_outcome :
      (sid : Uuid) (now : Instant) (caller : RequestUser) (w : World) (s : Session)
      → find_session_in_org_or_throw orm sid caller.org_id w ≡ (ok s, w)
      → may_manage s caller ≡ true
      → transition_session_status s.status user_finalizes (some s.mode)
        ≡ ok SessionStatus.draft_ready
      → (x : Workflow)
      → find_workflow_in_org_or_throw orm s.workflow_id caller.org_id "Workflow not found" w
        ≡ (ok x, w)
      → let m =
          published "session.events.finalized"
            (session_finalized_payload (finalized_event s now w))
            (build_msg_id (of_id s.id) "session.events.finalized" none) in
        finalize orm sid now caller w ≡ (
          if w.accepts m
          then (ok (finalized s now), with_sent m (finalized_world s now caller w))
          else (err nats_error, finalized_world s now caller w))
  unfolding finalize publish_session_finalized
  finalize_outcome sid now caller w s h a t x f = ground arith

  -- An administrator overrides the status when forced to, or when an event reaches the target: the
  -- row and an audit row are written and, for reconciliation, one event is emitted. Otherwise the
  -- request is refused and nothing changes.
  pub override_outcome :
      (sid : Uuid) (now : Instant) (dto : UpdateSessionStatusDto) (caller : RequestUser) (w : World)
      (s : Session)
      → find_session_in_org_or_throw orm sid caller.org_id w ≡ (ok s, w)
      → caller.role ≡ UserRole.admin
      → override_status orm sid now dto caller w ≡ (
          if option_get dto.force false || can_transition_to s.status dto.status (some s.mode)
          then (
            ok (overridden dto.status now s),
            with_log orm
                (session_log s caller "SESSION_STATUS_OVERRIDDEN"
                  (single "status" (status_json s.status))
                  (Json.object (
                    Fields.field "status" (status_json dto.status) (
                      Fields.field "reason" (Json.text dto.reason) (
                        Fields.field "force"
                          (Json.boolean (option_get dto.force false))
                          Fields.end)))))
                (if dto.status === SessionStatus.needs_reconciliation
                  then with_sent
                      (emitted
                        (session_room s.id)
                        "session.needs_reconciliation"
                        (needs_reconciliation_payload s.id))
                      (with_session (overridden dto.status now s) w)
                  else with_session (overridden dto.status now s) w),
          )
          else (err (conflict "Target status violates the session FSM"), w))
  unfolding override_status
  override_outcome sid now dto caller w s h a = ground arith
