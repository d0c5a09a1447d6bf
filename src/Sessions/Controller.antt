-- ===== src/Sessions/Controller.antt =====
-- src/modules/sessions/sessions.controller.ts and session-org.guard.ts: the routes, each behind its
-- guards (src/core/guards/roles.guard.ts for the roles), at well-formed ids and bodies.
use back_end.Prelude.{not, ◌==◌, ◌===◌}
use back_end.Database.Enums.{UserRole, user_role_Eq, SessionMode}
use back_end.Database.Orm.{Orm}
use back_end.Database.Entities.{Uuid, Instant, Session}
use back_end.World.{Action, not_found, forbidden, pure, throw_if, gets, or_throw, ◌>>=◌, ◌>>◌}
use back_end.Sessions.Access.{RequestUser, CreateSessionDto, UpdateSessionStatusDto, in_org}
use back_end.Sessions.Service.{
  WorkflowState, Progress, create_session, update_mode, finalize, archive, override_status,
  get_session, get_session_by_workflow_id, get_workflow_state, get_progress,
}

-- A request that may change state, with the new id and the time that it would draw.
pub data Request : Type 0 where
  create : Uuid → Instant → CreateSessionDto → Request
  set_mode : Uuid → SessionMode → Request
  finish : Uuid → Instant → Request
  delete : Uuid → Instant → Request
  set_status : Uuid → Instant → UpdateSessionStatusDto → Request

-- A request that reads: a session, the session of a workflow, and the state and progress of one.
pub data Reading : Type 0 where
  show : Uuid → Reading
  show_of_workflow : Uuid → Reading
  show_state : Uuid → Reading
  show_progress : Uuid → Reading

pub data Route : Type 0 where
  writes : Request → Route
  reads : Reading → Route

-- What a route answers.
pub data Answer : Type 0 where
  session_answer : Session → Answer
  state_answer : WorkflowState → Answer
  progress_answer : Progress → Answer

-- `RolesGuard` on a route that only administrators may take.
unfoldable pub require_admin : UserRole → Action (Unit {0})
require_admin role =
    throw_if (not (role === UserRole.admin))
      (forbidden "You do not have the required role to access this resource")

module _ (orm : Orm) where
  -- `SessionOrgGuard` at a well-formed id.
  unfoldable pub session_org_guard : Uuid → RequestUser → Action (Unit {0})
  session_org_guard session_id caller = do
    found ← gets (λ w. orm.find_one (λ x. x.id == session_id) w.sessions)
    session ← or_throw found (not_found "Session not found")
    workflow ← gets (λ w. orm.find_one (in_org session.workflow_id caller.org_id) w.workflows)
    or_throw workflow (not_found "Session not found")
    pure tt

  -- The routes that write.
  unfoldable pub handle : Request → RequestUser → Action Session
  unfolding require_admin session_org_guard
  handle (create new_id now dto) caller = create_session orm new_id now dto caller
  handle (set_mode id mode) caller = session_org_guard id caller >> update_mode orm id mode caller
  handle (finish id now) caller = session_org_guard id caller >> finalize orm id now caller
  handle (delete id now) caller = session_org_guard id caller >> archive orm id now caller
  handle (set_status id now dto) caller = do
    require_admin caller.role
    session_org_guard id caller
    override_status orm id now dto caller

  -- The routes that read, which stand between the others in the controller.
  unfoldable pub read : Reading → RequestUser → Action Answer
  unfolding session_org_guard
  read (show id) caller =
      session_org_guard id caller >> (get_session orm id caller >>= λ s. pure (session_answer s))
  read (show_of_workflow id) caller =
      get_session_by_workflow_id orm id caller >>= λ s. pure (session_answer s)
  read (show_state id) caller =
      session_org_guard id caller
      >> (get_workflow_state orm id caller >>= λ s. pure (state_answer s))
  read (show_progress id) caller =
      session_org_guard id caller >> (get_progress orm id caller >>= λ p. pure (progress_answer p))

  -- Every route of the controller.
  unfoldable pub route : Route → RequestUser → Action Answer
  unfolding handle read
  route (writes r) caller = handle r caller >>= λ s. pure (session_answer s)
  route (reads r) caller = read r caller
