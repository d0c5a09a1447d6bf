-- ===== src/Sessions/Fsm/Diagram.antt =====
-- The table of src/modules/sessions/session-fsm.ts as a relation, and its agreement with the search.
-- The table of TODO.md is another: Documented has it.
use back_end.Prelude.{◌≡◌, refl, ◌↔◌, Option, none, some, subst}
use back_end.Database.Enums.{SessionMode, SessionStatus}
use back_end.World.{Result, ok, err}
use back_end.Sessions.Fsm.Events.{
  SessionFsmEvent, first_user_message, ai_task_published, ai_result_received, ai_question_received,
  user_answer_posted, divergence_detected, divergence_resolved, enter_review, validate,
  export_completed, user_finalizes, pipeline_error, user_deletes, session_transitions,
  transition_session_status,
}

-- The statuses in which a user may still finalise.
pub data IsOpen : SessionStatus → Type 0 where
  created_open : IsOpen SessionStatus.created
  awaiting_open : IsOpen SessionStatus.awaiting_input
  processing_open : IsOpen SessionStatus.processing
  elicitation_open : IsOpen SessionStatus.in_elicitation
  draft_open : IsOpen SessionStatus.draft_ready
  reconciliation_open : IsOpen SessionStatus.needs_reconciliation
  review_open : IsOpen SessionStatus.in_review

pub data Step (mode : Option SessionMode)
    : SessionStatus → SessionFsmEvent → SessionStatus → Type 0 where
  greet : Step mode SessionStatus.created first_user_message SessionStatus.awaiting_input
  start : Step mode SessionStatus.awaiting_input ai_task_published SessionStatus.processing
  draft : Step mode SessionStatus.processing ai_result_received SessionStatus.draft_ready
  ask :
      mode ≡ some SessionMode.interactive
      → Step mode SessionStatus.processing ai_question_received SessionStatus.in_elicitation
  answer : Step mode SessionStatus.in_elicitation user_answer_posted SessionStatus.processing
  resume : Step mode SessionStatus.in_elicitation ai_task_published SessionStatus.processing
  rework : Step mode SessionStatus.draft_ready ai_task_published SessionStatus.processing
  redraft : Step mode SessionStatus.draft_ready ai_result_received SessionStatus.draft_ready
  diverge :
      Step mode SessionStatus.draft_ready divergence_detected SessionStatus.needs_reconciliation
  reconcile :
      Step mode SessionStatus.needs_reconciliation divergence_resolved SessionStatus.draft_ready
  review : Step mode SessionStatus.draft_ready enter_review SessionStatus.in_review
  approve : Step mode SessionStatus.in_review validate SessionStatus.validated
  deliver : Step mode SessionStatus.validated export_completed SessionStatus.exported
  finalize : {s : SessionStatus} → IsOpen s → Step mode s user_finalizes SessionStatus.draft_ready
  fail : {s : SessionStatus} → Step mode s pipeline_error SessionStatus.error
  delete : {s : SessionStatus} → Step mode s user_deletes SessionStatus.archived

ruleset steps = (
  greet, start, draft, answer, resume, rework, redraft, diverge, reconcile, review, approve,
  deliver, finalize, fail, delete, created_open, awaiting_open, processing_open, elicitation_open,
  draft_open, reconciliation_open, review_open,
)

-- What the diagram says of an outcome.
abbrev Drawn : Option SessionMode → SessionStatus → SessionFsmEvent → Result SessionStatus → Type 0
Drawn mode s e (ok t) = Step mode s e t
Drawn mode s e (err _) = Unit

transition-Drawn :
    (s : SessionStatus) (e : SessionFsmEvent) (mode : Option SessionMode)
    → Drawn mode s e (transition_session_status s e mode)
unfolding transition_session_status session_transitions
transition-Drawn SessionStatus.processing ai_question_received none = tt
transition-Drawn SessionStatus.processing ai_question_received (some SessionMode.auto) = tt
transition-Drawn SessionStatus.processing ai_question_received (some SessionMode.interactive) =
    ask refl
transition-Drawn SessionStatus.created first_user_message mode = greet
transition-Drawn SessionStatus.awaiting_input first_user_message mode = tt
transition-Drawn SessionStatus.draft_ready first_user_message mode = tt
transition-Drawn SessionStatus.needs_reconciliation first_user_message mode = tt
transition-Drawn SessionStatus.in_elicitation first_user_message mode = tt
transition-Drawn SessionStatus.in_review first_user_message mode = tt
transition-Drawn SessionStatus.validated first_user_message mode = tt
transition-Drawn SessionStatus.exported first_user_message mode = tt
transition-Drawn SessionStatus.archived first_user_message mode = tt
transition-Drawn SessionStatus.error first_user_message mode = tt
transition-Drawn _ _ mode = search steps

open-transition :
    {s : SessionStatus} (mode : Option SessionMode)
    → IsOpen s
    → transition_session_status s user_finalizes mode ≡ ok SessionStatus.draft_ready
unfolding transition_session_status session_transitions
open-transition mode created_open = refl
open-transition mode _ = refl

fail-transition :
    (s : SessionStatus) (mode : Option SessionMode)
    → transition_session_status s pipeline_error mode ≡ ok SessionStatus.error
unfolding transition_session_status session_transitions
fail-transition SessionStatus.created mode = refl
fail-transition _ mode = refl

pub delete-transition :
    (s : SessionStatus) (mode : Option SessionMode)
    → transition_session_status s user_deletes mode ≡ ok SessionStatus.archived
unfolding transition_session_status session_transitions
delete-transition SessionStatus.created mode = refl
delete-transition _ mode = refl

Step-transition :
    {mode : Option SessionMode} {s : SessionStatus} {e : SessionFsmEvent} {t : SessionStatus}
    → Step mode s e t
    → transition_session_status s e mode ≡ ok t
unfolding transition_session_status session_transitions
Step-transition {mode} (finalize o) = open-transition mode o
Step-transition {mode} (fail {s = s}) = fail-transition s mode
Step-transition {mode} (delete {s = s}) = delete-transition s mode
Step-transition (ask e) = rw e
Step-transition _ = refl

-- The search of the table allows a step exactly when the relation has it.
pub transition_iff_Step :
    (s : SessionStatus) (e : SessionFsmEvent) (mode : Option SessionMode) (t : SessionStatus)
    → (transition_session_status s e mode ≡ ok t) ↔ Step mode s e t
transition_iff_Step s e mode t =
    (λ h. subst (Drawn mode s e) h (transition-Drawn s e mode), Step-transition)
