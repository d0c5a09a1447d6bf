-- ===== src/Sessions/Fsm/Agreement.antt =====
-- `canTransitionTo` against `transitionSessionStatus` (src/modules/sessions/session-fsm.ts): the
-- two searches read one table and agree.
use back_end.Prelude.{Bool, true, false, ◌≡◌, refl, subst, ◌↔◌, Option, none, some}
use back_end.Database.Enums.{SessionMode, SessionStatus}
use back_end.World.{ok}
use back_end.Sessions.Fsm.Events.{
  SessionFsmEvent, first_user_message, ai_task_published, ai_question_received, divergence_detected,
  enter_review, validate, export_completed, user_finalizes, pipeline_error, user_deletes,
  session_transitions, transition_session_status, can_transition_to,
}
use back_end.Sessions.Fsm.Diagram.{IsOpen, Step, transition_iff_Step}

-- An event that takes the first status to the second, where there is one.
abbrev Via : Option SessionMode → SessionStatus → SessionStatus → Type 0
Via mode s t = (e : SessionFsmEvent) × (transition_session_status s e mode ≡ ok t)

abbrev Verdict : Option SessionMode → SessionStatus → SessionStatus → Bool → Type 0
Verdict mode s t true = Via mode s t
Verdict mode s t false = Unit

open-can :
    {s : SessionStatus} (mode : Option SessionMode)
    → IsOpen s
    → can_transition_to s SessionStatus.draft_ready mode ≡ true
unfolding can_transition_to session_transitions
open-can mode IsOpen.created_open = refl
open-can mode _ = refl

error-can :
    (s : SessionStatus) (mode : Option SessionMode)
    → can_transition_to s SessionStatus.error mode ≡ true
unfolding can_transition_to session_transitions
error-can SessionStatus.created mode = refl
error-can _ mode = refl

archived-can :
    (s : SessionStatus) (mode : Option SessionMode)
    → can_transition_to s SessionStatus.archived mode ≡ true
unfolding can_transition_to session_transitions
archived-can SessionStatus.created mode = refl
archived-can _ mode = refl

Step-can :
    {mode : Option SessionMode} {s : SessionStatus} {e : SessionFsmEvent} {t : SessionStatus}
    → Step mode s e t
    → can_transition_to s t mode ≡ true
unfolding can_transition_to session_transitions
Step-can {mode} (Step.finalize o) = open-can mode o
Step-can {mode} (Step.fail {s = s}) = error-can s mode
Step-can {mode} (Step.delete {s = s}) = archived-can s mode
Step-can (Step.ask e) = rw e
Step-can _ = refl

can-Verdict :
    (s t : SessionStatus) (mode : Option SessionMode)
    → Verdict mode s t (can_transition_to s t mode)
unfolding can_transition_to transition_session_status session_transitions
can-Verdict SessionStatus.created SessionStatus.awaiting_input mode = (first_user_message, refl)
can-Verdict SessionStatus.awaiting_input SessionStatus.processing mode = (ai_task_published, refl)
can-Verdict SessionStatus.in_elicitation SessionStatus.processing mode = (ai_task_published, refl)
can-Verdict SessionStatus.draft_ready SessionStatus.processing mode = (ai_task_published, refl)
can-Verdict SessionStatus.draft_ready SessionStatus.needs_reconciliation mode =
    (divergence_detected, refl)
can-Verdict SessionStatus.draft_ready SessionStatus.in_review mode = (enter_review, refl)
can-Verdict SessionStatus.in_review SessionStatus.validated mode = (validate, refl)
can-Verdict SessionStatus.validated SessionStatus.exported mode = (export_completed, refl)
can-Verdict SessionStatus.processing SessionStatus.in_elicitation none = tt
can-Verdict SessionStatus.processing SessionStatus.in_elicitation (some SessionMode.auto) = tt
can-Verdict SessionStatus.processing SessionStatus.in_elicitation (some SessionMode.interactive) =
    (ai_question_received, refl)
can-Verdict SessionStatus.needs_reconciliation SessionStatus.created mode = tt
can-Verdict SessionStatus.exported SessionStatus.created mode = tt
can-Verdict SessionStatus.archived SessionStatus.created mode = tt
can-Verdict SessionStatus.error SessionStatus.created mode = tt
can-Verdict SessionStatus.validated SessionStatus.draft_ready mode = tt
can-Verdict SessionStatus.exported SessionStatus.draft_ready mode = tt
can-Verdict SessionStatus.archived SessionStatus.draft_ready mode = tt
can-Verdict SessionStatus.error SessionStatus.draft_ready mode = tt
can-Verdict _ SessionStatus.draft_ready mode = (user_finalizes, refl)
can-Verdict _ SessionStatus.error mode = (pipeline_error, refl)
can-Verdict _ SessionStatus.archived mode = (user_deletes, refl)
can-Verdict _ _ mode = tt

-- A target passes `canTransitionTo` exactly when some event takes the session there.
pub can_transition_iff :
    (s t : SessionStatus) (mode : Option SessionMode)
    → (can_transition_to s t mode ≡ true)
      ↔ ((e : SessionFsmEvent) × (transition_session_status s e mode ≡ ok t))
can_transition_iff s t mode = (
  λ h. subst (Verdict mode s t) h (can-Verdict s t mode),
  λ (e, h). Step-can ((transition_iff_Step s e mode t).0 h),
)
