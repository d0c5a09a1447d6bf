-- ===== src/AiGateway/Repeats.antt =====
-- A result that comes twice, and a result that is refused half-way
-- (src/modules/ai-gateway/handlers/generation-complete.handler.ts). The subscriber enriches a result at
-- each delivery, and where it and the last execution have no id of a message, the enrichment makes a
-- new one: to the handler that is another event.
use back_end.Prelude.{◌≡◌, refl, ap, ◌∙◌, String, List, Option, some, false}
use back_end.Database.Orm.{Orm}
use back_end.Database.Entities.{Workflow, Session, PipelineExecution}
use back_end.World.{
  World, Exception, ok, err, Keeps, bind-Keeps, read-Keeps, bind_lem, bind_err, lift, modify,
}
use back_end.Sessions.Fsm.Events.{ai_result_received, transition_session_status}
use back_end.AiGateway.Handled.{
  IsBounded, once_more, not_skipped, idempotency_key, is_already_handled, mark_handled,
}
use back_end.AiGateway.Events.{AiTaskResultEvent, Fresh}
use back_end.AiGateway.Results.{
  find_pipeline_execution, find_session, find_workflow, assert_org_match, store_result,
  finish_result, apply_result, handle_result, save_and_announce,
}
use back_end.AiGateway.Invariant.{finish-Keeps}
use back_end.AiGateway.Lookups.{
  find_pipeline-reads, find_session-reads, find_workflow-reads, assert_org_match-reads, stored_in,
  in_workflow, in_session, in_pipeline,
}
use back_end.AiGateway.Numbers.{store_result_lem, with_version, version_for, pending_review}

abbrev handled : World → List String
handled w = w.ai.handled_results

abbrev set_handled : List String → World → World
set_handled l w = record w { ai = record w.ai { handled_results = l } }

abbrev no_pipeline : String
no_pipeline = "Pipeline execution not found for ai.tasks.result"

abbrev no_session : String
no_session = "Session not found for ai.tasks.result"

abbrev no_workflow : String
no_workflow = "Workflow not found for ai.tasks.result"

module _ (orm : Orm) (fresh : Fresh) (e : AiTaskResultEvent) where
  store-handled :
      (p : PipelineExecution) (s : Session) (x : Workflow)
      → Keeps handled (store_result orm fresh e p s x)
  store-handled p s x = record {
    keeps = λ w.
        let v = version_for orm fresh e x s w in
        ap (λ r. r.1.ai.handled_results) (store_result_lem orm fresh e p s x w)
        ∙ ap (λ q. q.2)
            ((finish-Keeps orm fresh e p s x (pending_review orm x v) v).keeps
              (with_version orm w x v));
  }

  apply-handled : Keeps handled (apply_result orm fresh e)
  unfolding apply_result
  apply-handled =
      bind-Keeps handled
        (find_pipeline_execution orm e.pipeline_execution_id e.session_id no_pipeline)
        (in_pipeline orm fresh e)
        (read-Keeps handled
          (find_pipeline-reads orm e.pipeline_execution_id e.session_id no_pipeline))
        λ p.
          bind-Keeps handled (find_session orm e.session_id no_session) (in_session orm fresh e p)
            (read-Keeps handled (find_session-reads orm e.session_id no_session))
            λ s.
              bind-Keeps handled (assert_org_match orm e.org_id s.id)
                (λ _. in_workflow orm fresh e p s)
                (read-Keeps handled (assert_org_match-reads orm e.org_id s.id))
                λ _.
                  bind-Keeps handled (find_workflow orm s.workflow_id no_workflow)
                    (stored_in orm fresh e p s)
                    (read-Keeps handled (find_workflow-reads orm s.workflow_id no_workflow))
                    λ x. store-handled p s x

  -- When the handler of results has handled an event to the end, it changes nothing when it is called
  -- at once again with the same event and message id, where the set of handled results was within its
  -- bound.
  pub handle_result_idem :
      (msg_id : Option String) (w : World)
      → IsBounded w.ai.handled_results
      → (handle_result orm fresh e msg_id w).0 ≡ ok tt
      → handle_result orm fresh e msg_id (handle_result orm fresh e msg_id w).1
        ≡ (ok tt, (handle_result orm fresh e msg_id w).1)
  unfolding handle_result
  handle_result_idem msg_id w b done =
      once_more handled set_handled (λ l w. refl)
        (idempotency_key msg_id e.correlation_id "ai.tasks.result") (apply_result orm fresh e)
        apply-handled w b done

  -- A result that arrives while its session cannot take one is refused, and its version is stored all
  -- the same, as the workflow's current version, pending review; the result does not count as handled.
  pub refused_result_outcome :
      (msg_id : Option String) (w : World) (p : PipelineExecution) (s : Session) (x : Workflow)
      (why : Exception)
      → is_already_handled
          (idempotency_key msg_id e.correlation_id "ai.tasks.result")
          w.ai.handled_results
        ≡ false
      → find_pipeline_execution orm e.pipeline_execution_id e.session_id no_pipeline w ≡ (ok p, w)
      → find_session orm e.session_id no_session w ≡ (ok s, w)
      → assert_org_match orm e.org_id s.id w ≡ (ok tt, w)
      → find_workflow orm s.workflow_id no_workflow w ≡ (ok x, w)
      → transition_session_status s.status ai_result_received (some s.mode) ≡ err why
      → handle_result orm fresh e msg_id w
        ≡ (err why, with_version orm w x (version_for orm fresh e x s w))
  unfolding handle_result apply_result finish_result
  refused_result_outcome msg_id w p s x why new fp fs fo fx stop =
      let key = idempotency_key msg_id e.correlation_id "ai.tasks.result" in
      let v = version_for orm fresh e x s w in
      let y = pending_review orm x v in
      let w' = with_version orm w x v in
      let stopped : finish_result orm fresh e p s x y v w' ≡ (err why, w') =
        bind_err (lift (transition_session_status s.status ai_result_received (some s.mode)))
          (λ status. save_and_announce orm fresh e p s x y v status) w' (ap (λ r. (r, w')) stop) in
      let body : apply_result orm fresh e w ≡ (err why, w') =
        bind_lem (find_pipeline_execution orm e.pipeline_execution_id e.session_id no_pipeline)
          (in_pipeline orm fresh e) w fp
        ∙ bind_lem (find_session orm e.session_id no_session) (in_session orm fresh e p) w fs
        ∙ bind_lem (assert_org_match orm e.org_id s.id) (λ _. in_workflow orm fresh e p s) w fo
        ∙ bind_lem (find_workflow orm s.workflow_id no_workflow) (stored_in orm fresh e p s) w fx
        ∙ store_result_lem orm fresh e p s x w
        ∙ stopped in
      not_skipped handled set_handled key (apply_result orm fresh e) w new
      ∙ bind_err (apply_result orm fresh e)
          (λ _. modify (λ w. set_handled (mark_handled key (handled w)) w)) w body
