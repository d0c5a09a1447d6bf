-- ===== src/Sessions/Requests.antt =====
-- What holds of every request to src/modules/sessions/sessions.controller.ts.
use back_end.Prelude.{◌≡◌, inl, inr, Option, none, some, arith, Bool-cases, ◌===◌}
use back_end.Database.Orm.{Orm}
use back_end.Database.Enums.{UserRole, user_role_Eq}
use back_end.Database.Entities.{Uuid, Session}
use back_end.World.{World, Action, pure, bind_err, ◌>>◌, Exception, ok, err, not_found, forbidden}
use back_end.Sessions.Access.{
  RequestUser, find_workflow_in_org_or_throw, find_session_in_org_or_throw,
}
use back_end.Sessions.Lookup.{OwnedBy, find_session_outcome}
use back_end.Sessions.Controller.{
  Request, create, set_mode, finish, delete, set_status, Route, writes, reads, show,
  show_of_workflow, show_state, show_progress, session_answer, session_org_guard, handle, read,
  route,
}

-- The session that a request names.
abbrev pub target : Request → Option Uuid
target (create _ _ _) = none
target (set_mode id _) = some id
target (finish id _) = some id
target (delete id _) = some id
target (set_status id _ _) = some id

-- The session that a route names.
abbrev pub named_by : Route → Option Uuid
named_by (writes r) = target r
named_by (reads (show id)) = some id
named_by (reads (show_of_workflow _)) = none
named_by (reads (show_state id)) = some id
named_by (reads (show_progress id)) = some id

module _ (orm : Orm) (caller : RequestUser) (w : World) where
  pub guard_refuses :
      (sid : Uuid)
      → find_session_in_org_or_throw orm sid caller.org_id w
        ≡ (err (not_found "Session not found"), w)
      → session_org_guard orm sid caller w ≡ (err (not_found "Session not found"), w)
  unfolding session_org_guard find_session_in_org_or_throw find_workflow_in_org_or_throw
  guard_refuses sid h = ground arith

  pub guard_passes :
      (sid : Uuid) (s : Session)
      → find_session_in_org_or_throw orm sid caller.org_id w ≡ (ok s, w)
      → session_org_guard orm sid caller w ≡ (ok tt, w)
  unfolding session_org_guard find_session_in_org_or_throw find_workflow_in_org_or_throw
  guard_passes sid s h = ground arith

  -- Behind a guard that lets the request pass, the method runs in the same world.
  pub guarded :
      {A : Type 0} (sid : Uuid) (s : Session) (m : Action A)
      → find_session_in_org_or_throw orm sid caller.org_id w ≡ (ok s, w)
      → (session_org_guard orm sid caller >> m) w ≡ m w
  guarded sid s m h = ground (arith, guard_passes sid s h)

  abbrev Refuses : {A : Type 0} → Action A → Type 0
  Refuses m = (e : Exception) × (m w ≡ (err e, w))

  abbrev IsForeign : Uuid → Type 0
  IsForeign sid = session_org_guard orm sid caller w ≡ (err (not_found "Session not found"), w)

  write_refused :
      (r : Request) (sid : Uuid)
      → target r ≡ some sid
      → IsForeign sid
      → Refuses (handle orm r caller)
  unfolding handle
  write_refused (create _ _ _) sid t g = cc
  write_refused (set_mode _ _) sid t g = (not_found "Session not found", ground arith)
  write_refused (finish _ _) sid t g = (not_found "Session not found", ground arith)
  write_refused (delete _ _) sid t g = (not_found "Session not found", ground arith)
  write_refused (set_status _ _ _) sid t g = elim (Bool-cases (caller.role === UserRole.admin)) [
    | inl a ↦ (not_found "Session not found", ground arith)
    | inr n ↦ (forbidden "You do not have the required role to access this resource", ground arith)
  ]

  -- A request that names a session is refused and changes nothing, whether it reads or writes, where
  -- the caller's organisation does not own the session.
  pub foreign_request_refused :
      (r : Route) (sid : Uuid)
      → named_by r ≡ some sid
      → ((s : Session) → OwnedBy w sid caller.org_id s → ⊥)
      → (e : Exception) × (route orm r caller w ≡ (err e, w))
  unfolding route read
  foreign_request_refused r sid t no_session = elim (find_session_outcome orm w sid caller.org_id) [
    | inl e ↦ refuse r t (guard_refuses sid e)
    | inr (s, e, o) ↦ absurd (no_session s o)
  ]
    where
      refuse :
          (r : Route)
          → named_by r ≡ some sid
          → IsForeign sid
          → (e : Exception) × (route orm r caller w ≡ (err e, w))
      refuse (writes r) t g =
          let (e, k) = write_refused r sid t g in
          (e, bind_err (handle orm r caller) (λ s. pure (session_answer s)) w k)
      refuse (reads (show _)) t g = (not_found "Session not found", ground arith)
      refuse (reads (show_of_workflow _)) t g = cc
      refuse (reads (show_state _)) t g = (not_found "Session not found", ground arith)
      refuse (reads (show_progress _)) t g = (not_found "Session not found", ground arith)
