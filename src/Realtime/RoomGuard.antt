-- ===== src/Realtime/RoomGuard.antt =====
-- src/modules/realtime/services/ws-room-guard.service.ts: who may join a room of the socket server.
-- A room's name is taken apart into its prefix and its id; the database answers, so that the
-- branches for its errors are not taken; log lines are left out.
use back_end.Prelude.{String, Option, none, some, ◌==◌, ◌===◌, if◌then◌else◌}
use back_end.Database.Enums.{UserRole, user_role_Eq}
use back_end.Database.Orm.{Orm}
use back_end.Database.Entities.{Uuid, Session, PipelineExecution}
use back_end.World.{World}
use back_end.Sessions.Access.{in_org}

-- The data of the socket; what is missing or empty is `none`.
pub record SocketUserData : Type 0 where
  pub user_id : Option Uuid
  pub org_id : Option Uuid
  pub role : UserRole

-- The patterns of a room's name, and every other name.
pub data RoomName : Type 0 where
  user_of session_of workflow_of pipeline_of : Uuid → RoomName
  admin_health : RoomName
  other_name : String → RoomName

pub data RoomJoinResult : Type 0 where
  allowed : RoomJoinResult
  rejected : String → RoomJoinResult

module _ (orm : Orm) where
  unfoldable pub validate_session_org : Uuid → Uuid → World → RoomJoinResult
  validate_session_org org_id session_id w =
      elim (orm.find_one (λ (s : Session). s.id == session_id) w.sessions) [
        | none ↦ rejected "Session not found"
        | some s ↦ elim (orm.find_one (in_org s.workflow_id org_id) w.workflows) [
          | none ↦ rejected "Session does not belong to your organization"
          | some _ ↦ allowed
        ]
      ]

  unfoldable pub validate_workflow_org : Uuid → Uuid → World → RoomJoinResult
  validate_workflow_org org_id workflow_id w =
      elim (orm.find_one (in_org workflow_id org_id) w.workflows) [
        | none ↦ rejected "Workflow not found or not in your organization"
        | some _ ↦ allowed
      ]

  unfoldable pub validate_pipeline_org : Uuid → Uuid → World → RoomJoinResult
  unfolding validate_session_org
  validate_pipeline_org org_id pipeline_id w =
      elim (orm.find_one (λ (p : PipelineExecution). p.id == pipeline_id) w.pipeline_executions) [
        | none ↦ rejected "Pipeline not found"
        | some p ↦ validate_session_org org_id p.session_id w
      ]

  -- `canJoin` for a socket whose user and organisation are known
  unfoldable pub can_join_as : Uuid → Uuid → UserRole → RoomName → World → RoomJoinResult
  can_join_as user_id org_id role (user_of target) w =
      if user_id == target then allowed else rejected "Cannot join another user's room"
  can_join_as user_id org_id role (session_of id) w = validate_session_org org_id id w
  can_join_as user_id org_id role (workflow_of id) w = validate_workflow_org org_id id w
  can_join_as user_id org_id role (pipeline_of id) w = validate_pipeline_org org_id id w
  can_join_as user_id org_id role admin_health w =
      if role === UserRole.admin then allowed else rejected "Admin role required"
  can_join_as user_id org_id role (other_name _) w = rejected "Unknown room pattern"

  unfoldable pub can_join : SocketUserData → RoomName → World → RoomJoinResult
  unfolding can_join_as
  can_join user room w = elim user.user_id [
    | none ↦ rejected "Missing user context"
    | some user_id ↦ elim user.org_id [
      | none ↦ rejected "Missing user context"
      | some org_id ↦ can_join_as user_id org_id user.role room w
    ]
  ]
