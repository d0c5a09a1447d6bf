-- ===== src/AiGateway/Numbers.antt =====
-- A result of the AI service (src/modules/ai-gateway/handlers/generation-complete.handler.ts) and the
-- numbers of the versions.
use back_end.Prelude.{
  ◌+◌, ◌≡◌, inl, inr, refl, sym, ap, ◌∙◌, subst, String, Option, none, Bool-cases, Option-cases,
  arith, ◌==◌, ltb,
}
use back_end.Database.Rows.{Contains}
use back_end.Database.Enums.{WorkflowStatus}
use back_end.Database.Orm.{Orm}
use back_end.Database.Entities.{
  Workflow, WorkflowVersion, Session, PipelineExecution, workflow_entity,
}
use back_end.World.{World, Ends, read-Ends}
use back_end.Workflows.Numbering.{IsNumbered, next-IsNumbered, next_version}
use back_end.Workflows.Service.{latest_version, insert_version, save_workflow}
use back_end.Workflows.Versions.{HasNumberedVersions, latest_version_lem}
use back_end.AiGateway.Events.{AiTaskResultEvent, Fresh, next_version_number, version_from_result}
use back_end.AiGateway.Results.{
  find_pipeline_execution, find_session, find_workflow, assert_org_match, store_result,
  finish_result, create_workflow_version_from_result, apply_result, handle_result,
}
use back_end.AiGateway.Invariant.{finish-Keeps}
use back_end.AiGateway.Handled.{once-Ends, idempotency_key}
use back_end.AiGateway.Lookups.{
  find_pipeline-reads, find_session-reads, find_workflow-reads, assert_org_match-reads,
  find_workflow-Contains, stored_in, in_workflow, in_session, in_pipeline,
}

module _ (orm : Orm) where
  -- A result that gives no number is numbered after the current version.
  next_version_number_lem :
      (w : World) (e : AiTaskResultEvent) (x : Workflow)
      → e.version_number ≡ none
      → HasNumberedVersions w
      → Contains x w.workflows
      → next_version_number e (latest_version orm x.id w) ≡ x.current_version + 1
  next_version_number_lem w e x n h c = elim (Bool-cases (ltb 0 x.current_version)) [
    | inl l ↦
        let (v, q, k) = latest_version_lem orm w x h c (ground (arith, l)) in rw (n, q, k) refl
    | inr z ↦ elim (Option-cases (latest_version orm x.id w)) [
      | inl q ↦ let zero : x.current_version ≡ 0 = ground (arith, z) in rw (n, q, zero) refl
      | inr (v, q) ↦
          let (p, d) =
            orm.find_latest_sound (λ v. v.version_number) (λ v. v.workflow_id == x.id)
              w.workflow_versions v q in
          let (a, b) = (h x c).1 v d (ground arith) in absurd (ground (arith, z))
    ]
  ]

  -- The world in which the workflow has its new version and nothing else is done.
  abbrev pub with_version : World → Workflow → WorkflowVersion → World
  with_version w x v = record w {
    workflows =
        orm.save
          (record x { current_version = v.version_number; status = WorkflowStatus.pending_review })
          w.workflows;
    workflow_versions = orm.insert v w.workflow_versions;
  }

  abbrev pub version_for : Fresh → AiTaskResultEvent → Workflow → Session → World → WorkflowVersion
  version_for fresh e x s w = version_from_result fresh e x s (latest_version orm x.id w)

  abbrev pub pending_review : Workflow → WorkflowVersion → Workflow
  pending_review x v = record x {
    current_version = v.version_number;
    status = WorkflowStatus.pending_review;
  }

  -- The new version is stored before anything else is decided.
  pub store_result_lem :
      (fresh : Fresh) (e : AiTaskResultEvent) (p : PipelineExecution) (s : Session) (x : Workflow)
      (w : World)
      → let v = version_for fresh e x s w in
        store_result orm fresh e p s x w
        ≡ finish_result orm fresh e p s x (pending_review x v) v (with_version w x v)
  unfolding store_result create_workflow_version_from_result insert_version save_workflow
  store_result_lem fresh e p s x w = refl

  store-HasNumberedVersions :
      (fresh : Fresh) (e : AiTaskResultEvent) (p : PipelineExecution) (s : Session) (x : Workflow)
      (w : World)
      → e.version_number ≡ none
      → Contains x w.workflows
      → HasNumberedVersions w
      → HasNumberedVersions (store_result orm fresh e p s x w).1
  store-HasNumberedVersions fresh e p s x w n c h =
      let v = version_for fresh e x s w in
      let y = pending_review x v in
      let number = next_version_number_lem w e x n h c in
      let kept = (finish-Keeps orm fresh e p s x y v).keeps (with_version w x v) in
      let new : IsNumbered (orm.save y w.workflows) (orm.insert v w.workflow_versions) =
        next-IsNumbered orm w.workflows w.workflows w.workflow_versions y v refl (λ z d ne. d)
          (next_version orm w.workflow_versions x y v refl number refl number (h x c)) h in
      subst (λ q. IsNumbered q.0 q.1)
        (sym (
          ap (λ r. (r.1.workflows, r.1.workflow_versions, r.1.ai.handled_results))
            (store_result_lem fresh e p s x w)
          ∙ kept))
        new

  module _ (fresh : Fresh) (e : AiTaskResultEvent) (w : World) (n : e.version_number ≡ none)
      (h : HasNumberedVersions w) where
    workflow-Ends :
        (p : PipelineExecution) (s : Session)
        → Ends HasNumberedVersions (in_workflow orm fresh e p s) w
    workflow-Ends p s =
        read-Ends HasNumberedVersions w
          (find_workflow orm s.workflow_id "Workflow not found for ai.tasks.result")
          (stored_in orm fresh e p s)
          (find_workflow-reads orm s.workflow_id "Workflow not found for ai.tasks.result") h
          λ x q. record {
            ends =
                store-HasNumberedVersions fresh e p s x w n
                  (find_workflow-Contains orm s.workflow_id "Workflow not found for ai.tasks.result"
                    x w q)
                  h;
          }

    session-Ends : (p : PipelineExecution) → Ends HasNumberedVersions (in_pipeline orm fresh e p) w
    session-Ends p =
        read-Ends HasNumberedVersions w
          (find_session orm e.session_id "Session not found for ai.tasks.result")
          (in_session orm fresh e p)
          (find_session-reads orm e.session_id "Session not found for ai.tasks.result") h
          λ s q.
            read-Ends HasNumberedVersions w (assert_org_match orm e.org_id s.id)
              (λ _. in_workflow orm fresh e p s) (assert_org_match-reads orm e.org_id s.id) h
              λ _ q. workflow-Ends p s

    apply-HasNumberedVersions : HasNumberedVersions (apply_result orm fresh e w).1
    unfolding apply_result
    apply-HasNumberedVersions =
        (read-Ends HasNumberedVersions w
          (find_pipeline_execution orm e.pipeline_execution_id e.session_id
            "Pipeline execution not found for ai.tasks.result")
          (in_pipeline orm fresh e)
          (find_pipeline-reads orm e.pipeline_execution_id e.session_id
            "Pipeline execution not found for ai.tasks.result")
          h λ p q. session-Ends p).ends

    -- A result that gives no version number keeps every workflow's versions numbered from 1 to its
    -- current version, also when it is refused half-way and when it was handled before.
    pub result-HasNumberedVersions :
        (msg_id : Option String) → HasNumberedVersions (handle_result orm fresh e msg_id w).1
    unfolding handle_result
    result-HasNumberedVersions msg_id =
        once-Ends (λ w. w.ai.handled_results)
          (λ l w. record w { ai = record w.ai { handled_results = l } })
          (idempotency_key msg_id e.correlation_id "ai.tasks.result") (apply_result orm fresh e)
          HasNumberedVersions w (λ l v k. k) h apply-HasNumberedVersions
