-- ===== src/Sessions/Fsm/Events.antt =====
-- src/modules/sessions/session-fsm.ts: the events, the table of rules and its two searches.
use back_end.Prelude.{
  ℕ, Bool, true, ◌≡◌, ◌↔◌, ◌&&◌, Option, none, some, List, [], ◌∷◌, ◌++◌, map, ◌==◌, Eq, ◌===◌,
  option_Eq, arith, array_find, array_some,
}
use back_end.Database.Enums.{SessionMode, session_mode_Eq, SessionStatus, session_status_Eq}
use back_end.World.{unprocessable, Result, ok, err}

pub data SessionFsmEvent : Type 0 where
  first_user_message ai_task_published ai_result_received : SessionFsmEvent
  ai_question_received user_answer_posted divergence_detected : SessionFsmEvent
  divergence_resolved enter_review validate export_completed : SessionFsmEvent
  user_finalizes pipeline_error user_deletes : SessionFsmEvent

abbrev pub event_place : SessionFsmEvent → ℕ
event_place first_user_message = 0
event_place ai_task_published = 1
event_place ai_result_received = 2
event_place ai_question_received = 3
event_place user_answer_posted = 4
event_place divergence_detected = 5
event_place divergence_resolved = 6
event_place enter_review = 7
event_place validate = 8
event_place export_completed = 9
event_place user_finalizes = 10
event_place pipeline_error = 11
event_place user_deletes = 12

pub event_beq_iff : (a b : SessionFsmEvent) → ((event_place a == event_place b) ≡ true) ↔ (a ≡ b)
event_beq_iff a b = ground arith

instance abbrev pub event_Eq : Eq SessionFsmEvent
event_Eq = record { beq = λ a b. event_place a == event_place b; beq_iff = event_beq_iff }

pub record TransitionRule : Type 0 where
  pub from : SessionStatus
  pub event : SessionFsmEvent
  pub to : SessionStatus
  pub mode : Option SessionMode

abbrev rule : SessionStatus → SessionFsmEvent → SessionStatus → TransitionRule
rule s e t = record { from = s; event = e; to = t; mode = none }

-- `Object.values(SessionStatus)`
abbrev pub all_statuses : List SessionStatus
all_statuses =
    SessionStatus.created ∷ SessionStatus.awaiting_input ∷ SessionStatus.processing
    ∷ SessionStatus.draft_ready ∷ SessionStatus.needs_reconciliation ∷ SessionStatus.in_elicitation
    ∷ SessionStatus.in_review ∷ SessionStatus.validated ∷ SessionStatus.exported
    ∷ SessionStatus.archived ∷ SessionStatus.error ∷ []

abbrev finalizable : List SessionStatus
finalizable =
    SessionStatus.created ∷ SessionStatus.awaiting_input ∷ SessionStatus.processing
    ∷ SessionStatus.in_elicitation ∷ SessionStatus.draft_ready ∷ SessionStatus.needs_reconciliation
    ∷ SessionStatus.in_review ∷ []

unfoldable pub session_transitions : List TransitionRule
session_transitions =
    (rule SessionStatus.created first_user_message SessionStatus.awaiting_input
      ∷ rule SessionStatus.awaiting_input ai_task_published SessionStatus.processing
      ∷ rule SessionStatus.processing ai_result_received SessionStatus.draft_ready
      ∷ record (rule SessionStatus.processing ai_question_received SessionStatus.in_elicitation) {
        mode = some SessionMode.interactive;
      }
      ∷ rule SessionStatus.in_elicitation user_answer_posted SessionStatus.processing
      ∷ rule SessionStatus.in_elicitation ai_task_published SessionStatus.processing
      ∷ rule SessionStatus.draft_ready ai_task_published SessionStatus.processing
      ∷ rule SessionStatus.draft_ready ai_result_received SessionStatus.draft_ready
      ∷ rule SessionStatus.draft_ready divergence_detected SessionStatus.needs_reconciliation
      ∷ rule SessionStatus.needs_reconciliation divergence_resolved SessionStatus.draft_ready
      ∷ rule SessionStatus.draft_ready enter_review SessionStatus.in_review
      ∷ rule SessionStatus.in_review validate SessionStatus.validated
      ∷ rule SessionStatus.validated export_completed SessionStatus.exported
      ∷ [])
    ++ map (λ s. rule s user_finalizes SessionStatus.draft_ready) finalizable
    ++ map (λ s. rule s pipeline_error SessionStatus.error) all_statuses
    ++ map (λ s. rule s user_deletes SessionStatus.archived) all_statuses

-- `!candidate.mode || candidate.mode === mode`
abbrev pub mode_fits : TransitionRule → Option SessionMode → Bool
mode_fits r mode = elim r.mode [ none ↦ true | some m ↦ some m === mode ]

unfoldable pub transition_session_status :
    SessionStatus → SessionFsmEvent → Option SessionMode → Result SessionStatus
transition_session_status from event mode =
    elim (array_find
      (λ candidate.
        candidate.from === from && candidate.event === event && mode_fits candidate mode)
      session_transitions) [
        | none ↦ err (unprocessable "Invalid session transition: ${from} + ${event}")
        | some r ↦ ok r.to
      ]

unfoldable pub can_transition_to : SessionStatus → SessionStatus → Option SessionMode → Bool
can_transition_to from to mode =
    array_some
      (λ candidate. candidate.from === from && candidate.to === to && mode_fits candidate mode)
      session_transitions
