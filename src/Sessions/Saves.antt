-- ===== src/Sessions/Saves.antt =====
-- Which row each method of src/modules/sessions/sessions.service.ts saves.
use back_end.Prelude.{
  true, false, ◌≡◌, refl, ◌⊎◌, inl, inr, Option, some, arith, Bool-cases, ◌===◌, is_some,
  option_get, ◌||◌,
}
use back_end.Database.Orm.{Orm}
use back_end.Database.Enums.{
  UserRole, user_role_Eq, SessionMode, SessionStatus, session_mode_Eq, session_status_Eq,
}
use back_end.Database.Entities.{Uuid, Instant, Session, session_entity}
use back_end.World.{World, Exception, ok, err}
use back_end.Sessions.Fsm.Events.{
  user_finalizes, transition_session_status, can_transition_to, session_transitions,
}
use back_end.Sessions.Access.{RequestUser, overridden, UpdateSessionStatusDto}
use back_end.Sessions.Lookup.{OwnedBy, find_session_outcome, find_workflow_outcome}
use back_end.Sessions.Service.{update_mode, finalize, archive, override_status}
use back_end.Sessions.Outcomes.{
  may_manage, archived, in_mode, finalized, archive_outcome, update_mode_outcome, finalize_outcome,
  override_outcome,
}

-- An archived session has the time of its archiving.
abbrev pub IsConsistent : Session → Type 0
IsConsistent s = s.status ≡ SessionStatus.archived → is_some s.archived_at ≡ true

finalizes-cases :
    (s : SessionStatus) (mode : Option SessionMode)
    → (transition_session_status s user_finalizes mode ≡ ok SessionStatus.draft_ready)
      ⊎ ((e : Exception) × (transition_session_status s user_finalizes mode ≡ err e))
unfolding transition_session_status session_transitions
finalizes-cases SessionStatus.created mode = inl refl
finalizes-cases SessionStatus.validated mode = inr (_, refl)
finalizes-cases SessionStatus.exported mode = inr (_, refl)
finalizes-cases SessionStatus.archived mode = inr (_, refl)
finalizes-cases SessionStatus.error mode = inr (_, refl)
finalizes-cases _ mode = inl refl

module _ (orm : Orm) where
  -- The request saved one row: the caller's session, with its owner and workflow kept.
  abbrev pub Saves : World → World → Uuid → Uuid → Type 0
  Saves w w' sid org_id =
      (old : Session) × (row : Session) × OwnedBy w sid org_id old
      × (row.id ≡ sid)
      × (row.workflow_id ≡ old.workflow_id)
      × (row.user_id ≡ old.user_id)
      × (IsConsistent old → IsConsistent row)
      × (w'.sessions ≡ orm.save row w.sessions)

  module _ (caller : RequestUser) (w : World) (sid : Uuid) where
    abbrev pub Keeps : World → Type 0
    Keeps w' = (w' ≡ w) ⊎ Saves w w' sid caller.org_id

    pub archive-Keeps : (now : Instant) → Keeps (archive orm sid now caller w).1
    archive-Keeps now = elim (find_session_outcome orm w sid caller.org_id) [
      | inl e ↦ inl (unfold archive in ground arith)
      | inr (s, e, o) ↦ elim (Bool-cases (may_manage s caller)) [
        | inl a ↦ inr (
          s,
          archived s now,
          o,
          o.1,
          refl,
          refl,
          (λ h k. refl),
          rw (archive_outcome orm sid now caller w s e) (ground arith),
        )
        | inr a ↦ inl (rw (archive_outcome orm sid now caller w s e) (ground arith))
      ]
    ]

    pub update_mode-Keeps : (mode : SessionMode) → Keeps (update_mode orm sid mode caller w).1
    update_mode-Keeps mode = elim (find_session_outcome orm w sid caller.org_id) [
      | inl e ↦ inl (unfold update_mode in ground arith)
      | inr (s, e, o) ↦ elim (Bool-cases (may_manage s caller)) [
        | inl a ↦ elim (Bool-cases (s.mode === mode)) [
          | inl same ↦ inl (rw (update_mode_outcome orm sid mode caller w s e) (ground arith))
          | inr new ↦ inr (
            s,
            in_mode s mode,
            o,
            o.1,
            refl,
            refl,
            (λ h. h),
            rw (update_mode_outcome orm sid mode caller w s e) (ground arith),
          )
        ]
        | inr a ↦ inl (rw (update_mode_outcome orm sid mode caller w s e) (ground arith))
      ]
    ]

    pub finalize-Keeps : (now : Instant) → Keeps (finalize orm sid now caller w).1
    finalize-Keeps now = elim (find_session_outcome orm w sid caller.org_id) [
      | inl e ↦ inl (unfold finalize in ground arith)
      | inr (s, e, o) ↦ elim (Bool-cases (may_manage s caller)) [
        | inl a ↦
            elim (find_workflow_outcome orm w s.workflow_id caller.org_id "Workflow not found") [
              | inl f ↦ inl (unfold finalize in ground arith)
              | inr (x, f, _, _, _) ↦ elim (finalizes-cases s.status (some s.mode)) [
                | inl t ↦ inr (
                  s,
                  finalized s now,
                  o,
                  o.1,
                  refl,
                  refl,
                  (λ h k. cc),
                  rw (finalize_outcome orm sid now caller w s e a t x f) (ground arith),
                )
                | inr (x', t) ↦ inl (unfold finalize in ground arith)
              ]
            ]
        | inr a ↦ inl (unfold finalize in ground arith)
      ]
    ]

    overridden-IsConsistent :
        (status : SessionStatus) (now : Instant) (s : Session)
        → IsConsistent s
        → IsConsistent (overridden status now s)
    overridden-IsConsistent status now s h k = ground arith

    pub override_status-Keeps :
        (now : Instant) (dto : UpdateSessionStatusDto)
        → Keeps (override_status orm sid now dto caller w).1
    override_status-Keeps now dto = elim (Bool-cases (caller.role === UserRole.admin)) [
      | inr n ↦ inl (unfold override_status in ground arith)
      | inl a ↦ elim (find_session_outcome orm w sid caller.org_id) [
        | inl e ↦ inl (unfold override_status in ground arith)
        | inr (s, e, o) ↦
            elim (Bool-cases
              (option_get dto.force false || can_transition_to s.status dto.status (some s.mode))) [
                | inl p ↦ inr (
                  s,
                  overridden dto.status now s,
                  o,
                  o.1,
                  refl,
                  refl,
                  overridden-IsConsistent dto.status now s,
                  rw (override_outcome orm sid now dto caller w s e (ground arith)) (ground arith),
                )
                | inr p ↦ inl (
                    rw (override_outcome orm sid now dto caller w s e (ground arith))
                      (ground arith))
              ]
      ]
    ]
