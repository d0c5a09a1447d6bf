-- ===== src/AiGateway/Once.antt =====
-- The handlers of progress and of comparisons in src/modules/ai-gateway/handlers pass over an event that
-- they have handled.
use back_end.Prelude.{◌≡◌, refl, arith, String, List, Option, some, none}
use back_end.Database.Orm.{Orm}
use back_end.Database.Entities.{Uuid, Instant, Score, PipelineExecution}
use back_end.Database.PipelineEntities.{AgentExecution}
use back_end.World.{World, ok, Keeps, bind-Keeps, read-Keeps}
use back_end.Sessions.Access.{save_session}
use back_end.AiGateway.Handled.{IsBounded, once_more, idempotency_key}
use back_end.AiGateway.Results.{assert_org_match, find_pipeline_execution, save_pipeline}
use back_end.AiGateway.Lookups.{find_pipeline-reads, assert_org_match-reads}
use back_end.AiGateway.Progress.{
  AiTaskProgressEvent, apply_progress, handle_progress_event, of_org, in_execution, store_progress,
  resolve_agent_definition_id, find_agent_execution, with_agent_log, LogEntry,
}
use back_end.AiGateway.Divergence.{
  PipelineDivergenceResultEvent, apply_divergence, reconcile, save_report, handle_divergence,
}

abbrev progress_set : World → List String
progress_set w = w.ai.handled_progress

abbrev divergence_set : World → List String
divergence_set w = w.ai.handled_divergences

module _ (orm : Orm) where
  divergence-Keeps :
      (threshold : Score) (e : PipelineDivergenceResultEvent)
      → Keeps divergence_set (apply_divergence orm threshold e)
  unfolding apply_divergence reconcile save_report save_session
  divergence-Keeps threshold e = record { keeps = λ w. ground arith }

  log-Keeps :
      (id : Uuid) (l : Option LogEntry) (w : World)
      → progress_set (with_agent_log orm id l w) ≡ progress_set w
  log-Keeps id none w = refl
  log-Keeps id (some l) w = refl

  module _ (now : Instant) (e : AiTaskProgressEvent) where
    definition-reads : Keeps (λ (w : World). w) (resolve_agent_definition_id orm e.agent_type)
    unfolding resolve_agent_definition_id
    definition-reads = record { keeps = λ w. ground arith }

    store-Keeps :
        (p : PipelineExecution) (existing : Option AgentExecution) (id : Uuid)
        → Keeps progress_set (store_progress orm now e p existing id)
    unfolding store_progress save_pipeline
    store-Keeps p existing id = record { keeps = λ w. log-Keeps _ e.log _ }

    execution-Keeps : (p : PipelineExecution) → Keeps progress_set (in_execution orm now e p)
    execution-Keeps p = record {
      keeps = λ w.
          let existing = find_agent_execution orm e w in
          (bind-Keeps progress_set (resolve_agent_definition_id orm e.agent_type)
              (store_progress orm now e p existing) (read-Keeps progress_set definition-reads)
              (store-Keeps p existing)).keeps
            w;
    }

    progress-Keeps : Keeps progress_set (apply_progress orm now e)
    unfolding apply_progress
    progress-Keeps =
        bind-Keeps progress_set (assert_org_match orm e.org_id e.session_id) (λ _. of_org orm now e)
          (read-Keeps progress_set (assert_org_match-reads orm e.org_id e.session_id))
          λ _.
            bind-Keeps progress_set
              (find_pipeline_execution orm (some e.pipeline_execution_id) e.session_id
                "Pipeline execution not found for ai.tasks.progress")
              (in_execution orm now e)
              (read-Keeps progress_set (
                find_pipeline-reads orm (some e.pipeline_execution_id) e.session_id
                  "Pipeline execution not found for ai.tasks.progress"))
              execution-Keeps

  -- A progress that was handled to the end changes nothing when its handler gets it again at once,
  -- where the set of handled progress was within its bound.
  handle_progress_event_idem :
      (now : Instant) (e : AiTaskProgressEvent) (msg_id : Option String) (w : World)
      → IsBounded w.ai.handled_progress
      → (handle_progress_event orm now e msg_id w).0 ≡ ok tt
      → handle_progress_event orm now e msg_id (handle_progress_event orm now e msg_id w).1
        ≡ (ok tt, (handle_progress_event orm now e msg_id w).1)
  unfolding handle_progress_event
  handle_progress_event_idem now e msg_id w b done =
      once_more progress_set (λ l w. record w { ai = record w.ai { handled_progress = l } })
        (λ l w. refl) (idempotency_key msg_id e.correlation_id "ai.tasks.progress")
        (apply_progress orm now e) (progress-Keeps now e) w b done

  -- The result of a comparison that was handled to the end changes nothing when its handler gets it
  -- again at once, where the set of handled ones was within its bound.
  handle_divergence_idem :
      (threshold : Score) (e : PipelineDivergenceResultEvent) (msg_id : Option String) (w : World)
      → IsBounded w.ai.handled_divergences
      → (handle_divergence orm threshold e msg_id w).0 ≡ ok tt
      → handle_divergence orm threshold e msg_id (handle_divergence orm threshold e msg_id w).1
        ≡ (ok tt, (handle_divergence orm threshold e msg_id w).1)
  unfolding handle_divergence
  handle_divergence_idem threshold e msg_id w b done =
      once_more divergence_set (λ l w. record w { ai = record w.ai { handled_divergences = l } })
        (λ l w. refl) (idempotency_key msg_id e.correlation_id "ai.tasks.divergence.result")
        (apply_divergence orm threshold e) (divergence-Keeps threshold e) w b done
