-- ===== src/Sessions/Dispatching.antt =====
-- What a dispatched task does to the sessions (src/modules/sessions/sessions.service.ts with
-- src/modules/ai-gateway/ai-gateway.service.ts).
use back_end.Prelude.{String, Bool, true, false, ◌≡◌, ◌⊎◌, inl, inr, refl, sym, ap, subst, arith}
use back_end.Database.Json.{Json}
use back_end.Database.Enums.{SessionStatus}
use back_end.Database.Orm.{Orm}
use back_end.Database.Entities.{Uuid, Session, session_entity}
use back_end.World.{
  World, Action, Result, Exception, ok, err, bind_lem, bind_err, pure, throw_if, ◌>>=◌, ◌>>◌,
}
use back_end.Sessions.Access.{
  RequestUser, find_session_in_org_or_throw, insert_audit_log, assert_owner_or_admin,
}
use back_end.Sessions.Fsm.Events.{transition_session_status, session_transitions}
use back_end.Sessions.Outcomes.{may_manage}
use back_end.Sessions.Lookup.{OwnedBy, find_session_outcome}
use back_end.Sessions.Dispatch.{
  DispatchOptions, task_of, move_session, log_dispatch, dispatch_ai_task,
}
use back_end.AiGateway.Tasks.{AiTask, TaskDraw, PublishedTask, publish_ai_task}
use back_end.AiGateway.Publication.{IsSent, Sends, publish-Sends}

-- The statuses in which a session waits for a task.
pub data IsWaiting : SessionStatus → Type 0 where
  created_waits : IsWaiting SessionStatus.created
  input_waits : IsWaiting SessionStatus.awaiting_input
  elicitation_waits : IsWaiting SessionStatus.in_elicitation

-- What a dispatch can answer and do to the sessions: an error leaves them; a success comes after the
-- publication, for the session's owner or an administrator, and moves the session if it waits.
pub data Dispatched (orm : Orm) (d : TaskDraw) (session_id : Uuid) (caller : RequestUser)
    (w : World) : Result PublishedTask × World → Type 0 where
  refused :
      (e : Exception) (w' : World)
      → w'.sessions ≡ w.sessions
      → Dispatched orm d session_id caller w (err e, w')
  unmoved :
      (a : PublishedTask) (w' : World) (s : Session)
      → OwnedBy w session_id caller.org_id s
      → may_manage s caller ≡ true
      → (IsWaiting s.status → ⊥)
      → w'.sessions ≡ w.sessions
      → IsSent d w'
      → Dispatched orm d session_id caller w (ok a, w')
  moved :
      (a : PublishedTask) (w' : World) (s : Session)
      → OwnedBy w session_id caller.org_id s
      → may_manage s caller ≡ true
      → IsWaiting s.status
      → w'.sessions ≡ orm.save (record s { status = SessionStatus.processing }) w.sessions
      → IsSent d w'
      → Dispatched orm d session_id caller w (ok a, w')

module _ (orm : Orm) where
  abbrev started : Session → World → World
  started s w = record w {
    sessions = orm.save (record s { status = SessionStatus.processing }) w.sessions;
  }

  abbrev Moves : Session → World → Type 0
  Moves s w =
      ((IsWaiting s.status → ⊥) × (move_session orm s w ≡ (ok tt, w)))
      ⊎ (IsWaiting s.status × (move_session orm s w ≡ (ok tt, started s w)))

  move_by_status : (s : Session) (w : World) (t : SessionStatus) → Moves (record s { status = t }) w
  unfolding move_session transition_session_status session_transitions
  move_by_status s w SessionStatus.created = inr (created_waits, refl)
  move_by_status s w SessionStatus.awaiting_input = inr (input_waits, refl)
  move_by_status s w SessionStatus.in_elicitation = inr (elicitation_waits, refl)
  move_by_status s w SessionStatus.processing = inl ((λ i. elim i [ ]), refl)
  move_by_status s w SessionStatus.draft_ready = inl ((λ i. elim i [ ]), refl)
  move_by_status s w SessionStatus.needs_reconciliation = inl ((λ i. elim i [ ]), refl)
  move_by_status s w SessionStatus.in_review = inl ((λ i. elim i [ ]), refl)
  move_by_status s w SessionStatus.validated = inl ((λ i. elim i [ ]), refl)
  move_by_status s w SessionStatus.exported = inl ((λ i. elim i [ ]), refl)
  move_by_status s w SessionStatus.archived = inl ((λ i. elim i [ ]), refl)
  move_by_status s w SessionStatus.error = inl ((λ i. elim i [ ]), refl)

  move_outcome : (s : Session) (w : World) → Moves s w
  move_outcome s w = move_by_status s w s.status

  module _ (stringify : Json → String) (uuid_text : Uuid → String) (d : TaskDraw)
      (session_id : Uuid) (input : Json) (caller : RequestUser) (options : DispatchOptions) where
    abbrev task : Session → AiTask
    task s = task_of s input caller options

    -- The stages of `dispatch_ai_task` after the lookup.
    abbrev logged : Session → PublishedTask → Action PublishedTask
    logged s a = log_dispatch orm s caller (task s) a >> pure a

    abbrev moving : Session → PublishedTask → Action PublishedTask
    moving s a = move_session orm s >> logged s a

    abbrev publishing : Session → Action PublishedTask
    publishing s = publish_ai_task orm stringify uuid_text d (task s) >>= moving s

    abbrev checking : Session → Action PublishedTask
    checking s = assert_owner_or_admin s caller >> publishing s

    abbrev Outcome : World → Result PublishedTask × World → Type 0
    Outcome w p = Dispatched orm d session_id caller w p

    -- What follows the publication.
    moving-Outcome :
        (w : World) (s : Session) (a : PublishedTask) (v : World)
        → OwnedBy w session_id caller.org_id s
        → may_manage s caller ≡ true
        → v.sessions ≡ w.sessions
        → IsSent d v
        → Outcome w (moving s a v)
    unfolding insert_audit_log
    moving-Outcome w s a v o y k sent = elim (move_outcome s v) [
      | inl (n, e) ↦
          subst (Outcome w) (sym (bind_lem (move_session orm s) (λ _. logged s a) v e))
            (unmoved a _ s o y n k sent)
      | inr (i, e) ↦ subst (Outcome w) (sym (bind_lem (move_session orm s) (λ _. logged s a) v e)) (
          moved a _ s o y i (ap (orm.save (record s { status = SessionStatus.processing })) k) sent)
    ]

    publishing-Outcome :
        (w : World) (s : Session)
        → OwnedBy w session_id caller.org_id s
        → may_manage s caller ≡ true
        → Outcome w (publishing s w)
    publishing-Outcome w s o y =
        after (publish_ai_task orm stringify uuid_text d (task s) w)
          (publish-Sends orm stringify uuid_text d (task s) w)
      where
        after :
            (p : Result PublishedTask × World)
            → Sends d w p
            → Outcome w (elim p.0 as (λ _. Result PublishedTask × World) [
              | ok a ↦ moving s a p.1
              | err e ↦ (err e, p.1)
            ])
        after (err e, v) (k, g) = refused e v k
        after (ok a, v) (k, g) = moving-Outcome w s a v o y k (g a refl)

    -- A dispatch that ends in an error leaves every session as it was. One that succeeds was asked
    -- for by the session's owner or an administrator of its organisation, has published the task,
    -- and moves that session to PROCESSING if it is in CREATED, AWAITING_INPUT or IN_ELICITATION, and
    -- no session else.
    pub dispatch-Dispatched :
        (w : World)
        → Dispatched orm d session_id caller w
            (dispatch_ai_task orm stringify uuid_text d session_id input caller options w)
    unfolding dispatch_ai_task assert_owner_or_admin
    dispatch-Dispatched w = elim (find_session_outcome orm w session_id caller.org_id) [
      | inl e ↦
          subst (Outcome w)
            (sym
              (bind_err (find_session_in_org_or_throw orm session_id caller.org_id) checking w e))
            (refused _ w refl)
      | inr (s, e, o) ↦
          subst (Outcome w)
            (sym
              (bind_lem (find_session_in_org_or_throw orm session_id caller.org_id) checking w e))
            (allowed s o)
    ]
      where
        by_guard :
            (s : Session)
            → OwnedBy w session_id caller.org_id s
            → (stop : Bool) (x : Exception) → (stop ≡ false → may_manage s caller ≡ true)
            → Outcome w ((throw_if stop x >> publishing s) w)
        by_guard s o true x y = refused x w refl
        by_guard s o false x y = publishing-Outcome w s o (y refl)

        allowed : (s : Session) → OwnedBy w session_id caller.org_id s → Outcome w (checking s w)
        allowed s o = by_guard s o _ _ λ h. ground arith
