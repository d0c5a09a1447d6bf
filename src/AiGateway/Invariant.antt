-- ===== src/AiGateway/Invariant.antt =====
-- What the handling of a result keeps (src/modules/ai-gateway/handlers/generation-complete.handler.ts).
use back_end.Prelude.{refl, String, List, some, arith}
use back_end.Database.Json.{Json}
use back_end.Database.Orm.{Orm}
use back_end.Database.Entities.{Uuid, Workflow, WorkflowVersion, Session, PipelineExecution}
use back_end.World.{World, MsgId, Keeps, bind-Keeps, lift-Keeps, ◌>>◌}
use back_end.Messaging.Publisher.{publish}
use back_end.Sessions.Fsm.Events.{ai_result_received, transition_session_status}
use back_end.AiGateway.Events.{compute_changed_elements, AiTaskResultEvent, Fresh}
use back_end.AiGateway.Results.{
  finish_result, mark_workflow_updated, save_result, announce, save_and_announce, compare_graphs,
  open_report, publish_ai_task_divergence, emit_workflow_updated,
}

abbrev pub kept_part : World → List Workflow × List WorkflowVersion × List String
kept_part w = (w.workflows, w.workflow_versions, w.ai.handled_results)

publish-Keeps :
    (subject : String) (payload : Json) (id : MsgId) → Keeps kept_part (publish subject payload id)
unfolding publish
publish-Keeps subject payload id = record { keeps = λ w. ground arith }

mark-Keeps :
    (orm : Orm) (id : Uuid) (v : WorkflowVersion) → Keeps kept_part (mark_workflow_updated orm id v)
unfolding mark_workflow_updated
mark-Keeps orm id v =
    lift-Keeps kept_part (compute_changed_elements v.elements_json) _ λ changed. publish-Keeps _ _ _

module _ (orm : Orm) (fresh : Fresh) (e : AiTaskResultEvent) (p : PipelineExecution) where
  compare-Keeps :
      (s : Session) (x : Workflow) (v : WorkflowVersion)
      → Keeps kept_part (compare_graphs orm fresh e p s x v)
  unfolding compare_graphs publish_ai_task_divergence open_report
  compare-Keeps s x v =
      bind-Keeps kept_part (open_report orm fresh s x v p)
        (λ _. publish_ai_task_divergence orm fresh e s >> emit_workflow_updated orm e s x v)
        (record { keeps = λ w. refl })
        λ _.
          bind-Keeps kept_part (publish_ai_task_divergence orm fresh e s)
            (λ _. emit_workflow_updated orm e s x v) (publish-Keeps _ _ _)
            λ _. record { keeps = λ w. refl }

  announce-Keeps :
      (s : Session) (x : Workflow) (v : WorkflowVersion)
      → Keeps kept_part (announce orm fresh e p x v s)
  announce-Keeps s x v =
      bind-Keeps kept_part (mark_workflow_updated orm x.id v)
        (λ _. compare_graphs orm fresh e p s x v) (mark-Keeps orm x.id v) λ _. compare-Keeps s x v

  pub finish-Keeps :
      (s : Session) (x y : Workflow) (v : WorkflowVersion)
      → Keeps kept_part (finish_result orm fresh e p s x y v)
  unfolding finish_result save_result
  finish-Keeps s x y v =
      lift-Keeps kept_part (transition_session_status s.status ai_result_received (some s.mode))
        (λ status. save_and_announce orm fresh e p s x y v status)
        λ status.
          bind-Keeps kept_part (save_result orm fresh e p s x y v status)
            (λ s'. announce orm fresh e p y v s') (record { keeps = λ w. refl })
            λ s'. announce-Keeps s' y v
