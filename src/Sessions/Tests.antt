-- ===== src/Sessions/Tests.antt =====
-- Runs of the session component on the database of World/Fixtures.antt: 10 administers
-- organisation 1, which owns the session 70; 20 administers organisation 2.
use back_end.Prelude.{◌≡◌, ◌≢◌, refl, ◌⊎◌, ◌↔◌, true, false, none, some, [], ◌∷◌, inl, inr, arith}
use back_end.Database.Json.{Json}
use back_end.Database.Rows.{Contains, Every}
use back_end.Database.InMemory.{in_memory}
use back_end.Database.Enums.{UserRole, SessionMode, SessionStatus}
use back_end.Database.Entities.{Session}
use back_end.World.{Exception, ok, err, nats_error}
use back_end.World.Fixtures.{office, elicitation, purchase, second}
use back_end.Sessions.Fsm.Events.{
  SessionFsmEvent, pipeline_error, first_user_message, ai_task_published, ai_question_received,
  user_finalizes, transition_session_status, can_transition_to, session_transitions,
}
use back_end.Sessions.Fsm.Documented.{IsClosed, finalizes, documented_transition}
use back_end.Sessions.Fsm.Agreement.{can_transition_iff}
use back_end.Sessions.Fsm.Lifecycle.{Trace, Accounts, Over, created-Accounts, Over-stays}
use back_end.Sessions.Access.{
  overridden, find_session_in_org_or_throw, find_workflow_in_org_or_throw, RequestUser,
  UpdateSessionStatusDto,
}
use back_end.Sessions.Lookup.{OwnedBy}
use back_end.Sessions.Service.{archive, finalize, override_status}
use back_end.Sessions.Controller.{writes, delete, handle, route}
use back_end.Sessions.Requests.{foreign_request_refused}
use back_end.Sessions.Saves.{IsConsistent}
use back_end.Sessions.Invariant.{handle-IsConsistent, handle-others}
use back_end.AiGateway.Tasks.{TaskDraw}
use back_end.Sessions.Dispatch.{dispatch_ai_task}
use back_end.Sessions.Dispatching.{Dispatched, dispatch-Dispatched}
use back_end.Sessions.Overrides.{override_status-transition_session_status}
use back_end.Sessions.Archiving.{AllArchived, archive-AllArchived}
use back_end.Sessions.Outcomes.{archived, finalized_world, finalize_outcome}

abbrev ann : RequestUser
ann = record { id = 10; org_id = 1; role = UserRole.admin }

abbrev eve : RequestUser
eve = record { id = 20; org_id = 2; role = UserRole.admin }

abbrev reopen : UpdateSessionStatusDto
reopen = record { status = SessionStatus.needs_reconciliation; reason = "split"; force = some true }

not_of_eve : (s : Session) → OwnedBy (office true) 70 2 s → ⊥
not_of_eve s (inl c, i, (x, inl d, j, o)) = ground (arith, c, d, j, o)
not_of_eve s (inl c, i, (x, inr d, j, o)) = d
not_of_eve s (inr (inl c), i, (x, inl d, j, o)) = ground (arith, c, d, j, o)
not_of_eve s (inr (inl c), i, (x, inr d, j, o)) = d
not_of_eve s (inr (inr c), _, _) = c

foreign_request_refused_example :
    (e : Exception) × (route in_memory (writes (delete 70 99)) eve (office true)
      ≡ (err e, office true))
foreign_request_refused_example =
    foreign_request_refused in_memory eve (office true) (writes (delete 70 99)) 70 refl not_of_eve

all-IsConsistent : Every IsConsistent (office true).sessions
all-IsConsistent s (inl c) = λ a. ground (arith, c, a)
all-IsConsistent s (inr (inl c)) = λ a. ground (arith, c, a)
all-IsConsistent s (inr (inr c)) = absurd c

handle-IsConsistent_example :
    Every IsConsistent (handle in_memory (delete 70 99) ann (office true)).1.sessions
handle-IsConsistent_example =
    handle-IsConsistent in_memory ann (office true) (delete 70 99) all-IsConsistent

handle-others_example :
    Contains second (handle in_memory (delete 70 99) ann (office true)).1.sessions
    ↔ Contains second (office true).sessions
handle-others_example =
    handle-others in_memory ann (office true) (delete 70 99) 70 second refl (λ e. ground (arith, e))

archive-AllArchived_example : AllArchived (archive in_memory 70 99 ann (office true)).1 70 99
unfolding archive transition_session_status session_transitions
archive-AllArchived_example =
    archive-AllArchived in_memory 70 99 ann (office true) (archived elicitation 99) refl

finalize_outcome_example :
    finalize in_memory 70 99 ann (office false)
    ≡ (err nats_error, finalized_world in_memory elicitation 99 ann (office false))
unfolding transition_session_status session_transitions find_session_in_org_or_throw
    find_workflow_in_org_or_throw
finalize_outcome_example =
    finalize_outcome in_memory 70 99 ann (office false) elicitation refl refl refl purchase refl

documented_transition_example :
    (transition_session_status SessionStatus.validated user_finalizes (some SessionMode.auto)
      ≡ ok SessionStatus.draft_ready)
    ⊎ ((user_finalizes ≡ user_finalizes)
        × IsClosed SessionStatus.validated
        × ((u : SessionStatus)
            → transition_session_status SessionStatus.validated user_finalizes
                (some SessionMode.auto)
              ≢ ok u))
documented_transition_example =
    documented_transition (some SessionMode.auto) SessionStatus.validated user_finalizes
      SessionStatus.draft_ready (finalizes SessionStatus.validated)

can_transition_iff_example :
    (can_transition_to SessionStatus.processing SessionStatus.in_review none ≡ true) ↔ (
      (e : SessionFsmEvent) × (transition_session_status SessionStatus.processing e none
        ≡ ok SessionStatus.in_review))
can_transition_iff_example =
    can_transition_iff SessionStatus.processing SessionStatus.in_review none

asked :
    Trace SessionStatus.created
      (ai_question_received ∷ ai_task_published ∷ first_user_message ∷ [])
      SessionStatus.in_elicitation
unfolding transition_session_status session_transitions
asked =
    Trace.next ai_question_received (some SessionMode.interactive)
      (Trace.next ai_task_published none (Trace.next first_user_message none Trace.here refl) refl)
      refl

created-Accounts_example :
    Accounts SessionStatus.in_elicitation
      (ai_question_received ∷ ai_task_published ∷ first_user_message ∷ [])
created-Accounts_example =
    created-Accounts (ai_question_received ∷ ai_task_published ∷ first_user_message ∷ [])
      SessionStatus.in_elicitation asked

failed_after_archive : Trace SessionStatus.archived (pipeline_error ∷ []) SessionStatus.error
unfolding transition_session_status session_transitions
failed_after_archive = Trace.next pipeline_error none Trace.here refl

Over-stays_example : Over SessionStatus.error
Over-stays_example =
    Over-stays SessionStatus.archived (pipeline_error ∷ []) SessionStatus.error tt
      failed_after_archive

abbrev to_draft : UpdateSessionStatusDto
to_draft = record { status = SessionStatus.draft_ready; reason = "done"; force = none }

override_status-transition_session_status_example :
    (s : Session) × OwnedBy (office true) 70 1 s
    × (SessionStatus.draft_ready ≡ SessionStatus.draft_ready)
    × ((e : SessionFsmEvent) × (transition_session_status s.status e (some s.mode)
          ≡ ok SessionStatus.draft_ready))
unfolding override_status can_transition_to session_transitions
override_status-transition_session_status_example =
    override_status-transition_session_status in_memory (office true) 70 99 to_draft ann
      (overridden SessionStatus.draft_ready 99 elicitation) refl refl

abbrev run_210 : TaskDraw
run_210 = record { execution_id = 210; now = 99; correlation_id = "c" }

dispatch-Dispatched_example : Dispatched in_memory run_210 70 ann (office true) (
    dispatch_ai_task in_memory
      (λ _. "")
      (λ _. "210")
      run_210
      70
      Json.null
      ann
      (record { task_type = none; resume_from_checkpoint = none })
      (office true))
dispatch-Dispatched_example =
    dispatch-Dispatched in_memory (λ _. "") (λ _. "210") run_210 70 Json.null ann
      (record { task_type = none; resume_from_checkpoint = none }) (office true)
