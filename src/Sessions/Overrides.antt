-- ===== src/Sessions/Overrides.antt =====
-- `overrideStatus` of src/modules/sessions/sessions.service.ts against the state machine.
use back_end.Prelude.{false, ◌≡◌, subst, some, option_get, arith, Bool-cases, inl, inr, sym}
use back_end.Database.Enums.{user_role_Eq, session_status_Eq}
use back_end.Database.Orm.{Orm}
use back_end.Database.Entities.{Uuid, Instant, Session}
use back_end.World.{World, ok}
use back_end.Sessions.Fsm.Events.{SessionFsmEvent, transition_session_status, can_transition_to}
use back_end.Sessions.Fsm.Agreement.{can_transition_iff}
use back_end.Sessions.Access.{RequestUser, UpdateSessionStatusDto}
use back_end.Sessions.Lookup.{OwnedBy, find_session_outcome}
use back_end.Sessions.Service.{override_status}

module _ (orm : Orm) (w : World) where
  pub override_status-transition_session_status :
      (sid : Uuid) (now : Instant) (dto : UpdateSessionStatusDto) (caller : RequestUser)
      (t : Session)
      → option_get dto.force false ≡ false
      → (override_status orm sid now dto caller w).0 ≡ ok t
      → (s : Session) × OwnedBy w sid caller.org_id s
        × (t.status ≡ dto.status)
        × ((e : SessionFsmEvent) × (transition_session_status s.status e (some s.mode)
              ≡ ok t.status))
  unfolding override_status
  override_status-transition_session_status sid now dto caller t f h =
      elim (find_session_outcome orm w sid caller.org_id) [
        | inl e ↦ ground arith
        | inr (s, e, o) ↦ elim (Bool-cases (can_transition_to s.status dto.status (some s.mode))) [
          | inl can ↦
              let to : t.status ≡ dto.status = ground arith in
              (
                s,
                o,
                to,
                subst
                    (λ z.
                      (e : SessionFsmEvent) × (transition_session_status s.status e (some s.mode)
                        ≡ ok z))
                    (sym to) ((can_transition_iff s.status dto.status (some s.mode)).0 can),
              )
          | inr cannot ↦ ground arith
        ]
      ]
