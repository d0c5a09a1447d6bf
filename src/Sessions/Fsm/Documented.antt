-- ===== src/Sessions/Fsm/Documented.antt =====
-- The transitions of a session as TODO.md lists them (6.2, Sessions module), beside those that
-- src/modules/sessions/session-fsm.ts takes.
use back_end.Prelude.{◌≡◌, ◌≢◌, ◌⊎◌, inl, inr, refl, Option, some}
use back_end.Database.Enums.{SessionMode, SessionStatus}
use back_end.World.{ok}
use back_end.Sessions.Fsm.Events.{
  SessionFsmEvent, first_user_message, ai_task_published, ai_result_received, ai_question_received,
  user_answer_posted, enter_review, validate, export_completed, user_finalizes, session_transitions,
  transition_session_status,
}

-- The rows of the table, its events under the names that they have in the code
-- (`first_message_received` is `first_user_message`, `ai_task_dispatched` is `ai_task_published`,
-- `user_answer` is `user_answer_posted`, `user_enters_review` is `enter_review`, `user_validates` is
-- `validate`, `export_triggered` is `export_completed`).
pub data Documented (mode : Option SessionMode)
    : SessionStatus → SessionFsmEvent → SessionStatus → Type 0 where
  message : Documented mode SessionStatus.created first_user_message SessionStatus.awaiting_input
  task : Documented mode SessionStatus.awaiting_input ai_task_published SessionStatus.processing
  result : Documented mode SessionStatus.processing ai_result_received SessionStatus.draft_ready
  question :
      mode ≡ some SessionMode.interactive
      → Documented mode SessionStatus.processing ai_question_received SessionStatus.in_elicitation
  reply : Documented mode SessionStatus.in_elicitation user_answer_posted SessionStatus.processing
  enters : Documented mode SessionStatus.draft_ready enter_review SessionStatus.in_review
  validates : Documented mode SessionStatus.in_review validate SessionStatus.validated
  exports : Documented mode SessionStatus.validated export_completed SessionStatus.exported
  finalizes : (s : SessionStatus) → Documented mode s user_finalizes SessionStatus.draft_ready

-- The statuses from which the code does not finalise.
pub data IsClosed : SessionStatus → Type 0 where
  validated_closed : IsClosed SessionStatus.validated
  exported_closed : IsClosed SessionStatus.exported
  archived_closed : IsClosed SessionStatus.archived
  error_closed : IsClosed SessionStatus.error

abbrev pub FinalizesUnlessClosed : Option SessionMode → SessionStatus → Type 0
FinalizesUnlessClosed mode s =
    (transition_session_status s user_finalizes mode ≡ ok SessionStatus.draft_ready)
    ⊎ (IsClosed s × ((u : SessionStatus) → transition_session_status s user_finalizes mode ≢ ok u))

finalizes_unless_closed :
    (mode : Option SessionMode) (s : SessionStatus) → FinalizesUnlessClosed mode s
unfolding transition_session_status session_transitions
finalizes_unless_closed mode SessionStatus.created = inl refl
finalizes_unless_closed mode SessionStatus.validated = inr (validated_closed, λ u e. cc)
finalizes_unless_closed mode SessionStatus.exported = inr (exported_closed, λ u e. cc)
finalizes_unless_closed mode SessionStatus.archived = inr (archived_closed, λ u e. cc)
finalizes_unless_closed mode SessionStatus.error = inr (error_closed, λ u e. cc)
finalizes_unless_closed mode _ = inl refl

pub documented_transition :
    (mode : Option SessionMode) (s : SessionStatus) (e : SessionFsmEvent) (t : SessionStatus)
    → Documented mode s e t
    → (transition_session_status s e mode ≡ ok t)
      ⊎ ((e ≡ user_finalizes)
          × IsClosed s
          × ((u : SessionStatus) → transition_session_status s e mode ≢ ok u))
unfolding transition_session_status session_transitions
documented_transition mode _ _ _ message = inl refl
documented_transition mode _ _ _ task = inl refl
documented_transition mode _ _ _ result = inl refl
documented_transition mode _ _ _ (question i) = inl (rw i refl)
documented_transition mode _ _ _ reply = inl refl
documented_transition mode _ _ _ enters = inl refl
documented_transition mode _ _ _ validates = inl refl
documented_transition mode _ _ _ exports = inl refl
documented_transition mode _ _ _ (finalizes s) = elim (finalizes_unless_closed mode s) [
  | inl e ↦ inl e
  | inr (c, n) ↦ inr (refl, c, n)
]
