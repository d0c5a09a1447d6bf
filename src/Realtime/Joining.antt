-- ===== src/Realtime/Joining.antt =====
-- Who gets into a room (src/modules/realtime/services/ws-room-guard.service.ts).
use back_end.Prelude.{some, ◌==◌, ◌≡◌, arith, Option-cases, inl, inr}
use back_end.Database.Rows.{Contains}
use back_end.Database.Enums.{UserRole, user_role_Eq, user_role_beq_iff}
use back_end.Database.Orm.{Orm}
use back_end.Database.Entities.{Uuid, Session, PipelineExecution}
use back_end.World.{World}
use back_end.Sessions.Access.{in_org}
use back_end.Sessions.Lookup.{WorkflowIn, OwnedBy}
use back_end.Realtime.RoomGuard.{
  SocketUserData, RoomName, user_of, session_of, workflow_of, pipeline_of, admin_health, other_name,
  allowed, validate_session_org, validate_workflow_org, validate_pipeline_org, can_join_as,
  can_join,
}

-- What a user must be to enter a room: the user of the room; of the organisation of the session,
-- of the workflow or of the pipeline's session; an administrator, for the health of the system.
abbrev pub MayEnter : World → Uuid → Uuid → UserRole → RoomName → Type 0
MayEnter w user_id org_id role (user_of target) = user_id ≡ target
MayEnter w user_id org_id role (session_of id) = (s : Session) × OwnedBy w id org_id s
MayEnter w user_id org_id role (workflow_of id) = WorkflowIn w id org_id
MayEnter w user_id org_id role (pipeline_of id) =
    (p : PipelineExecution) × Contains p w.pipeline_executions
    × (p.id ≡ id)
    × ((s : Session) × OwnedBy w p.session_id org_id s)
MayEnter w user_id org_id role admin_health = role ≡ UserRole.admin
MayEnter w user_id org_id role (other_name _) = ⊥

module _ (orm : Orm) (w : World) where
  session-OwnedBy :
      (org_id id : Uuid)
      → validate_session_org orm org_id id w ≡ allowed
      → (s : Session) × OwnedBy w id org_id s
  unfolding validate_session_org
  session-OwnedBy org_id id h =
      elim (Option-cases (orm.find_one (λ (s : Session). s.id == id) w.sessions)) [
        | inl e ↦ ground arith
        | inr (s, e) ↦
            let (p, c) = orm.find_one_sound (λ (s : Session). s.id == id) w.sessions s e in
            elim (Option-cases (orm.find_one (in_org s.workflow_id org_id) w.workflows)) [
              | inl f ↦ ground arith
              | inr (x, f) ↦
                  let (q, d) = orm.find_one_sound (in_org s.workflow_id org_id) w.workflows x f in
                  (s, (c, ground arith, (x, d, ground arith, ground arith)))
            ]
      ]

  entered :
      (user_id org_id : Uuid) (role : UserRole) (room : RoomName)
      → can_join_as orm user_id org_id role room w ≡ allowed
      → MayEnter w user_id org_id role room
  unfolding can_join_as validate_workflow_org validate_pipeline_org
  entered user_id org_id role (user_of target) h = ground arith
  entered user_id org_id role (session_of id) h = session-OwnedBy org_id id h
  entered user_id org_id role (workflow_of id) h =
      elim (Option-cases (orm.find_one (in_org id org_id) w.workflows)) [
        | inl f ↦ ground arith
        | inr (x, f) ↦
            let (q, d) = orm.find_one_sound (in_org id org_id) w.workflows x f in
            (x, d, ground arith, ground arith)
      ]
  entered user_id org_id role (pipeline_of id) h =
      elim (Option-cases
        (orm.find_one (λ (p : PipelineExecution). p.id == id) w.pipeline_executions)) [
          | inl e ↦ ground arith
          | inr (p, e) ↦
              let (q, d) =
                orm.find_one_sound (λ (p : PipelineExecution). p.id == id) w.pipeline_executions p
                  e in
              (p, d, ground arith, session-OwnedBy org_id p.session_id (ground arith))
        ]
  entered user_id org_id role admin_health h =
      (user_role_beq_iff role UserRole.admin).0 (ground arith)
  entered user_id org_id role (other_name _) h = ground arith

  -- A socket that may join a room has a user and an organisation, and they give it the right to
  -- enter: its own room, rooms of its organisation, and the health room as an administrator.
  pub can_join-MayEnter :
      (user : SocketUserData) (room : RoomName)
      → can_join orm user room w ≡ allowed
      → (user_id : Uuid) × (org_id : Uuid) × (user.user_id ≡ some user_id)
        × (user.org_id ≡ some org_id)
        × MayEnter w user_id org_id user.role room
  unfolding can_join
  can_join-MayEnter user room h = elim (Option-cases user.user_id) [
    | inl e ↦ ground arith
    | inr (u, e) ↦ elim (Option-cases user.org_id) [
      | inl f ↦ ground arith
      | inr (o, f) ↦ (u, o, e, f, entered u o user.role room (ground arith))
    ]
  ]
