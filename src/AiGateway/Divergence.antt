-- ===== src/AiGateway/Divergence.antt =====
-- src/modules/ai-gateway/handlers/divergence-result.handler.ts: how far what was generated is from
-- what was asked for.
use back_end.Prelude.{
  ◌<◌, ◌≡◌, ◌≢◌, ◌⊎◌, inl, inr, Bool-cases, ◌===◌, refl, sym, ap, subst, ◌∙◌, String, Option, none,
  some, true, false, ◌==◌, ltb, arith,
}
use back_end.Database.Rows.{Contains}
use back_end.Database.Json.{Json, Fields}
use back_end.Database.Enums.{SessionStatus, session_status_Eq, session_status_beq_iff, SessionMode}
use back_end.Database.Orm.{Orm}
use back_end.Database.Entities.{Uuid, Score, Session, session_entity}
use back_end.Database.PipelineEntities.{DivergenceReport, divergence_report_entity}
use back_end.World.{
  World, Action, ok, plain_error, pure, gets, modify, or_throw, when, bind_lem, ◌>>=◌, ◌>>◌,
}
use back_end.Messaging.Gateway.{emit_to_session}
use back_end.Sessions.Access.{save_session}
use back_end.Sessions.Fsm.Events.{divergence_detected, transition_session_status}
use back_end.Sessions.Fsm.Diagram.{Step, diverge, transition_iff_Step}
use back_end.AiGateway.Handled.{
  handle_once, idempotency_key, is_already_handled, mark_handled, not_skipped,
}

pub record PipelineDivergenceResultEvent : Type 0 where
  pub correlation_id : String
  pub report_id : Uuid
  pub session_id : Uuid
  pub similarity_score : Score

from_draft :
    {mode : Option SessionMode} {s t : SessionStatus}
    → Step mode s divergence_detected t
    → s ≡ SessionStatus.draft_ready
from_draft diverge = refl

-- The threshold is the configuration's (`divergence.threshold`).
module _ (orm : Orm) (threshold : Score) where
  unfoldable pub reconcile : PipelineDivergenceResultEvent → Option Session → Action (Unit {0})
  unfolding save_session
  reconcile e none = pure tt
  reconcile e (some session) = do
    save_session orm (record session { status = SessionStatus.needs_reconciliation })
    emit_to_session session.id "session.needs_reconciliation" (
        Json.object (
          Fields.field "similarityScore" (Json.number e.similarity_score)
            (Fields.field "threshold" (Json.number threshold) Fields.end)))

  unfoldable pub save_report : DivergenceReport → Action (Unit {0})
  save_report r = modify (λ w. record w {
    ai = record w.ai { divergence_reports = orm.save r w.ai.divergence_reports };
  })

  abbrev pub check_session : PipelineDivergenceResultEvent → Action (Unit {0})
  check_session e = do
    found ← gets (λ w. orm.find_one (λ s. s.id == e.session_id) w.sessions)
    reconcile e found

  unfoldable pub apply_divergence : PipelineDivergenceResultEvent → Action (Unit {0})
  unfolding save_report reconcile
  apply_divergence e = do
    found ← gets (λ w. orm.find_one (λ r. r.id == e.report_id) w.ai.divergence_reports)
    report ← or_throw found (plain_error "Divergence report not found")
    save_report (record report { overall_similarity = some e.similarity_score })
    when (ltb e.similarity_score threshold) (check_session e)

  unfoldable pub handle_divergence :
      PipelineDivergenceResultEvent → Option String → Action (Unit {0})
  unfolding apply_divergence
  handle_divergence e msg_id =
      handle_once (λ w. w.ai.handled_divergences)
        (λ l w. record w { ai = record w.ai { handled_divergences = l } })
        (idempotency_key msg_id e.correlation_id "ai.tasks.divergence.result") (apply_divergence e)

  abbrev judge : PipelineDivergenceResultEvent → DivergenceReport → Action (Unit {0})
  judge e report = do
    save_report (record report { overall_similarity = some e.similarity_score })
    when (ltb e.similarity_score threshold) (check_session e)

  -- A low similarity is acted on.
  low_similarity :
      (e : PipelineDivergenceResultEvent) (w : World) (r : DivergenceReport) (s : Session)
      → orm.find_one (λ r. r.id == e.report_id) w.ai.divergence_reports ≡ some r
      → orm.find_one (λ s. s.id == e.session_id) w.sessions ≡ some s
      → e.similarity_score < threshold
      → apply_divergence e w
        ≡ reconcile e (some s) (record w {
          ai = record w.ai {
            divergence_reports =
                orm.save
                  (record r { overall_similarity = some e.similarity_score })
                  w.ai.divergence_reports;
          };
        })
  unfolding apply_divergence save_report
  low_similarity e w r s fr fs low =
      let w' = record w {
        ai = record w.ai {
          divergence_reports =
              orm.save (record r { overall_similarity = some e.similarity_score })
                w.ai.divergence_reports;
        };
      } in
      let small : ltb e.similarity_score threshold ≡ true = ground (arith, low) in
      ap (λ found. (or_throw found (plain_error "Divergence report not found") >>= judge e) w) fr
      ∙ ap (λ c. when c (check_session e) w') small
      ∙ ap (λ found. reconcile e found w') fs

  reconcile-Contains :
      (e : PipelineDivergenceResultEvent) (s : Session) (w : World)
      → (w' : World) × (reconcile e (some s) w ≡ (ok tt, w'))
        × Contains (record s { status = SessionStatus.needs_reconciliation }) w'.sessions
  unfolding reconcile save_session
  reconcile-Contains e s w = (_, refl, orm.save_self _ w.sessions)

  -- A similarity below the threshold moves the session to NEEDS_RECONCILIATION whatever its status,
  -- where the message was not handled before and its report and its session exist; and the status is
  -- DRAFT_READY or the state machine refuses a detected divergence.
  pub divergence_skips_machine :
      (e : PipelineDivergenceResultEvent) (msg_id : Option String) (w : World)
      (r : DivergenceReport) (s : Session)
      → is_already_handled
          (idempotency_key msg_id e.correlation_id "ai.tasks.divergence.result")
          w.ai.handled_divergences
        ≡ false
      → orm.find_one (λ r. r.id == e.report_id) w.ai.divergence_reports ≡ some r
      → orm.find_one (λ s. s.id == e.session_id) w.sessions ≡ some s
      → e.similarity_score < threshold
      → Contains
          (record s { status = SessionStatus.needs_reconciliation })
          (handle_divergence e msg_id w).1.sessions
        × ((s.status ≡ SessionStatus.draft_ready)
            ⊎ ((t : SessionStatus)
                → transition_session_status s.status divergence_detected (some s.mode) ≢ ok t))
  unfolding handle_divergence
  divergence_skips_machine e msg_id w r s new fr fs low =
      let key = idempotency_key msg_id e.correlation_id "ai.tasks.divergence.result" in
      let (w', q, c) = reconcile-Contains e s _ in
      let done =
        not_skipped (λ w. w.ai.handled_divergences)
          (λ l w. record w { ai = record w.ai { handled_divergences = l } }) key
          (apply_divergence e) w new
        ∙ bind_lem (apply_divergence e)
            (λ _. modify (λ w. record w {
              ai = record w.ai { handled_divergences = mark_handled key w.ai.handled_divergences };
            }))
            w (low_similarity e w r s fr fs low ∙ q) in
      (
        subst
            (λ p. Contains (record s { status = SessionStatus.needs_reconciliation }) p.1.sessions)
            (sym done) c,
        elim (Bool-cases (s.status === SessionStatus.draft_ready)) [
          | inl d ↦ inl ((session_status_beq_iff s.status SessionStatus.draft_ready).0 d)
          | inr n ↦ inr (λ t k. ground (
            arith,
            n,
            (session_status_beq_iff s.status SessionStatus.draft_ready).1 (
                from_draft
                  ((transition_iff_Step s.status divergence_detected (some s.mode) t).0 k)),
          ))
        ],
      )
