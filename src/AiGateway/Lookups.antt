-- ===== src/AiGateway/Lookups.antt =====
-- The lookups of src/modules/ai-gateway/handlers read the tables and leave them as they are.
use back_end.Prelude.{◌≡◌, refl, ap, String, Option, none, some, ◌==◌, ◌&&◌, not, arith}
use back_end.Database.Rows.{Contains}
use back_end.Database.Orm.{Orm}
use back_end.Database.Entities.{Uuid, Workflow, Session, PipelineExecution}
use back_end.World.{
  World, Action, ok, plain_error, or_throw, throw_if, Keeps, bind-Keeps, ◌>>=◌, ◌>>◌,
}
use back_end.AiGateway.Events.{AiTaskResultEvent, Fresh}
use back_end.AiGateway.Results.{
  find_pipeline_execution, find_session, find_workflow, assert_org_match, store_result,
}

found_reads :
    {A : Type 0} (found : Option A) (missing : String) (w : World)
    → (or_throw found (plain_error missing) w).1 ≡ w
found_reads none missing w = refl
found_reads (some a) missing w = refl

found_ok :
    {A : Type 0} (found : Option A) (missing : String) (w : World) (a : A)
    → or_throw found (plain_error missing) w ≡ (ok a, w)
    → found ≡ some a
found_ok none missing w a e = ground (arith, ap (λ p. p.0) e)
found_ok (some b) missing w a e = ground (arith, ap (λ p. p.0) e)

module _ (orm : Orm) where
  pub find_pipeline-reads :
      (id : Option Uuid) (session_id : Uuid) (missing : String)
      → Keeps (λ (w : World). w) (find_pipeline_execution orm id session_id missing)
  unfolding find_pipeline_execution
  find_pipeline-reads none session_id missing = record { keeps = λ w. refl }
  find_pipeline-reads (some id) session_id missing = record {
    keeps = λ w.
        found_reads
          (orm.find_one (λ p. p.id == id && p.session_id == session_id) w.pipeline_executions)
          missing w;
  }

  pub find_session-reads :
      (id : Uuid) (missing : String) → Keeps (λ (w : World). w) (find_session orm id missing)
  unfolding find_session
  find_session-reads id missing = record {
    keeps = λ w. found_reads (orm.find_one (λ s. s.id == id) w.sessions) missing w;
  }

  pub find_workflow-reads :
      (id : Uuid) (missing : String) → Keeps (λ (w : World). w) (find_workflow orm id missing)
  unfolding find_workflow
  find_workflow-reads id missing = record {
    keeps = λ w. found_reads (orm.find_one (λ x. x.id == id) w.workflows) missing w;
  }

  abbrev same_org : Uuid → Workflow → Action (Unit {0})
  same_org org_id x =
      throw_if (not (x.org_id == org_id)) (plain_error "org_id mismatch in NATS payload")

  pub assert_org_match-reads :
      (org_id : Option Uuid) (session_id : Uuid)
      → Keeps (λ (w : World). w) (assert_org_match orm org_id session_id)
  unfolding assert_org_match
  assert_org_match-reads none session_id = record { keeps = λ w. refl }
  assert_org_match-reads (some org_id) session_id =
      bind-Keeps (λ w. w) (find_session orm session_id "Session not found for org validation")
        (λ s.
          find_workflow orm s.workflow_id "Workflow not found for org validation"
          >>= same_org org_id)
        (find_session-reads session_id "Session not found for org validation")
        λ s.
          bind-Keeps (λ w. w)
            (find_workflow orm s.workflow_id "Workflow not found for org validation")
            (same_org org_id)
            (find_workflow-reads s.workflow_id "Workflow not found for org validation")
            λ x. record { keeps = λ w. refl }

  pub find_workflow-Contains :
      (id : Uuid) (missing : String) (x : Workflow) (w : World)
      → find_workflow orm id missing w ≡ (ok x, w)
      → Contains x w.workflows
  unfolding find_workflow
  find_workflow-Contains id missing x w e =
      let q = found_ok (orm.find_one (λ x. x.id == id) w.workflows) missing w x e in
      (orm.find_one_sound (λ x. x.id == id) w.workflows x q).1

  -- The stages of `apply_result`.
  abbrev pub stored_in :
      Fresh → AiTaskResultEvent → PipelineExecution → Session → Workflow → Action (Unit {0})
  stored_in fresh e p s x = store_result orm fresh e p s x

  abbrev pub in_workflow :
      Fresh → AiTaskResultEvent → PipelineExecution → Session → Action (Unit {0})
  in_workflow fresh e p s =
      find_workflow orm s.workflow_id "Workflow not found for ai.tasks.result"
      >>= stored_in fresh e p s

  abbrev pub in_session :
      Fresh → AiTaskResultEvent → PipelineExecution → Session → Action (Unit {0})
  in_session fresh e p s = assert_org_match orm e.org_id s.id >> in_workflow fresh e p s

  abbrev pub in_pipeline : Fresh → AiTaskResultEvent → PipelineExecution → Action (Unit {0})
  in_pipeline fresh e p =
      find_session orm e.session_id "Session not found for ai.tasks.result" >>= in_session fresh e p
