-- ===== src/Sessions/Archiving.antt =====
-- `archive` of src/modules/sessions/sessions.service.ts takes the session's messages, documents
-- and pipeline executions with it.
use back_end.Prelude.{
  false, ◌≡◌, inl, inr, some, nat_Eq, option_Eq, arith, option_beq_iff, subst, Bool-cases,
}
use back_end.Database.Rows.{Every}
use back_end.Database.Orm.{Orm}
use back_end.Database.Entities.{Uuid, Instant, Session, Message, Document, PipelineExecution}
use back_end.World.{World, ok, err, not_found}
use back_end.Sessions.Access.{RequestUser, archive_children, find_session_in_org_or_throw}
use back_end.Sessions.Lookup.{find_session_outcome}
use back_end.Sessions.Service.{archive}
use back_end.Sessions.Outcomes.{may_manage, archive_outcome}

-- The rows of a session carry the time of its archiving.
abbrev pub AllArchived : World → Uuid → Instant → Type 0
AllArchived w sid now =
    Every (λ (m : Message). m.session_id ≡ sid → m.archived_at ≡ some now) w.messages
    × Every (λ (d : Document). d.session_id ≡ some sid → d.archived_at ≡ some now) w.documents
    × Every (λ (p : PipelineExecution). p.session_id ≡ sid → p.archived_at ≡ some now)
        w.pipeline_executions

module _ (orm : Orm) where
  archive_children-AllArchived :
      (sid : Uuid) (now : Instant) (w : World)
      → AllArchived (archive_children orm sid now w) sid now
  archive_children-AllArchived sid now w = (
    (λ m c e. let (r, _, q) = orm.update_sound _ _ w.messages m c in ground arith),
    (λ d c e.
        let (r, _, q) = orm.update_sound _ _ w.documents d c in
        ground (arith, option_beq_iff r.session_id (some sid))),
    (λ p c e. let (r, _, q) = orm.update_sound _ _ w.pipeline_executions p c in ground arith),
  )

  -- Once a session is archived, each of its messages, documents and pipeline executions carries
  -- the time of its archiving.
  pub archive-AllArchived :
      (sid : Uuid) (now : Instant) (caller : RequestUser) (w : World) (s : Session)
      → (archive orm sid now caller w).0 ≡ ok s
      → AllArchived (archive orm sid now caller w).1 sid now
  archive-AllArchived sid now caller w s h = elim (find_session_outcome orm w sid caller.org_id) [
    | inl e ↦ absurd (refused e)
    | inr (t, e, o) ↦ elim (Bool-cases (may_manage t caller)) [
      | inl a ↦
          rw (archive_outcome orm sid now caller w t e, a)
            (subst (λ i. AllArchived (archive_children orm t.id now w) i now) o.1
              (archive_children-AllArchived t.id now w))
      | inr a ↦ absurd (forbidden_then t e a)
    ]
  ]
    where
      refused :
          find_session_in_org_or_throw orm sid caller.org_id w
            ≡ (err (not_found "Session not found"), w)
          → ⊥
      refused e = unfold archive in ground arith

      forbidden_then :
          (t : Session)
          → find_session_in_org_or_throw orm sid caller.org_id w ≡ (ok t, w)
          → may_manage t caller ≡ false
          → ⊥
      forbidden_then t e a = ground (arith, archive_outcome orm sid now caller w t e)
