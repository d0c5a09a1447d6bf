-- ===== src/AiGateway/Tests.antt =====
-- Runs of the gateway on the database of World/Fixtures.antt: session 70 waits for the result of the
-- execution 200 on the workflow 50, session 71 has its draft; the user archived session 72.
use back_end.Prelude.{◌≡◌, ◌≢◌, ◌⊎◌, refl, inl, inr, true, string_Eq, some, none, [], ◌∷◌, arith}
use back_end.Database.Json.{Json, Items, Fields, get_property}
use back_end.Database.Rows.{Contains}
use back_end.Database.InMemory.{in_memory}
use back_end.Database.Enums.{SessionMode, SessionStatus, PipelineStatus, PipelineTaskType}
use back_end.Database.PipelineEnums.{ComparisonType, DivergenceReportStatus}
use back_end.Database.Entities.{
  Session, PipelineExecution, session_entity, pipeline_execution_entity, workflow_entity,
}
use back_end.Database.PipelineEntities.{DivergenceReport, divergence_report_entity}
use back_end.World.{World, Action, ok, err, plain_error, unprocessable, throw}
use back_end.World.Fixtures.{no_ai_state, office, purchase, first_version, elicitation}
use back_end.Sessions.Fsm.Events.{
  divergence_detected, transition_session_status, session_transitions,
}
use back_end.Messaging.Delivery.{RawMessage, serve}
use back_end.Workflows.Versions.{HasNumberedVersions}
use back_end.AiGateway.Handled.{IsBounded, mark_handled, mark-IsBounded}
use back_end.AiGateway.Events.{AiTaskResultEvent, Fresh}
use back_end.AiGateway.Results.{
  handle_result, find_pipeline_execution, find_session, assert_org_match, find_workflow,
  save_result, mark_workflow_updated, compare_graphs,
}
use back_end.AiGateway.Failures.{
  Payload, fields, uuid, IsAccountedFor, subscription, serve-IsAccountedFor,
}
use back_end.AiGateway.Numbers.{with_version, version_for}
use back_end.AiGateway.Subscriber.{ResultMessage, handle_message, message-HasNumberedVersions}
use back_end.AiGateway.Repeats.{handle_result_idem, refused_result_outcome}
use back_end.AiGateway.Divergence.{handle_divergence, divergence_skips_machine}

abbrev run_200 : PipelineExecution
run_200 = record {
  id = 200;
  session_id = 70;
  task_type = PipelineTaskType.full_pipeline;
  mode = SessionMode.interactive;
  status = PipelineStatus.pending;
  input_payload = Json.object Fields.end;
  retry_count = 0;
  last_checkpoint_agent = none;
  triggered_by = none;
  nats_message_id = none;
  started_at = none;
  completed_at = none;
  total_llm_calls = 0;
  total_tokens_consumed = 0;
  final_confidence = none;
  error_summary = none;
  created_at = 25;
  archived_at = none;
}

abbrev archived : Session
archived = record elicitation { id = 72; status = SessionStatus.archived }

abbrev pending_report : DivergenceReport
pending_report = record {
  id = 300;
  workflow_id = 50;
  graph_a_id = 301;
  graph_b_id = 302;
  comparison_type = ComparisonType.intent_vs_generated;
  status = DivergenceReportStatus.pending;
  overall_similarity = none;
  severity = none;
  auto_triggered = true;
  triggered_by = none;
  pipeline_execution_id = some 200;
  completed_at = none;
}

abbrev gateway_world : World
gateway_world = record (office true) {
  sessions = elicitation ∷ archived ∷ [];
  pipeline_executions = run_200 ∷ record run_200 { id = 201; session_id = 72 } ∷ [];
  ai = record no_ai_state { divergence_reports = pending_report ∷ [] };
}

abbrev fresh : Fresh
fresh = record {
  version_id = 400;
  message_id = 401;
  intent_id = 402;
  generated_id = 403;
  report_id = 404;
  now = 500;
}

abbrev drawn : AiTaskResultEvent
drawn = record {
  correlation_id = "c1";
  session_id = 70;
  org_id = some 1;
  pipeline_execution_id = some 200;
  workflow_json = some (
      Json.object (
        Fields.field "elements"
          (Json.array (
            Items.cons (Json.object (Fields.field "element_id" (Json.text "e1") Fields.end))
              Items.nil))
          Fields.end));
  elsa_json = none;
  confidence = 9;
  summary = none;
  version_number = none;
}

abbrev late : AiTaskResultEvent
late = record drawn { session_id = 72; pipeline_execution_id = some 201 }

gateway-HasNumberedVersions : HasNumberedVersions gateway_world
gateway-HasNumberedVersions x (inl e) = (
  λ n l u. (first_version, inl refl, ground (arith, e), ground (arith, e, l, u)),
  λ v c i. ground (arith, e, c),
)
gateway-HasNumberedVersions x (inr c) = absurd c

none-IsBounded : IsBounded []
none-IsBounded = (omega arith, λ k c. absurd c)

mark-IsBounded_example : IsBounded (mark_handled "a" [])
mark-IsBounded_example =
    mark-IsBounded "a" [] (λ e. ground (arith, (string_Eq.beq_iff "a" "").1 e)) none-IsBounded

abbrev sent : ResultMessage
sent = record {
  session_id = 70;
  correlation_id = none;
  pipeline_execution_id = none;
  elements_json = drawn.workflow_json;
  workflow_json = none;
  confidence = some 9;
  ai_summary = none;
  summary = none;
}

message-HasNumberedVersions_example :
    HasNumberedVersions (handle_message in_memory fresh "enriched-1" sent gateway_world).1
message-HasNumberedVersions_example =
    message-HasNumberedVersions in_memory fresh "enriched-1" sent gateway_world
      gateway-HasNumberedVersions

handle_result_idem_example :
    handle_result in_memory fresh drawn none
      (handle_result in_memory fresh drawn none gateway_world).1
    ≡ (ok tt, (handle_result in_memory fresh drawn none gateway_world).1)
unfolding handle_result transition_session_status session_transitions save_result
    mark_workflow_updated compare_graphs get_property
handle_result_idem_example =
    handle_result_idem in_memory fresh drawn none gateway_world none-IsBounded refl

refused_result_outcome_example : handle_result in_memory fresh late none gateway_world ≡ (
  err (unprocessable "Invalid session transition: ${from} + ${event}"),
  with_version in_memory gateway_world purchase
      (version_for in_memory fresh late purchase archived gateway_world),
)
unfolding transition_session_status session_transitions find_pipeline_execution find_session
    assert_org_match find_workflow
refused_result_outcome_example =
    refused_result_outcome in_memory fresh late none gateway_world
      (record run_200 { id = 201; session_id = 72 }) archived purchase _ refl refl refl refl refl
      refl

divergence_skips_machine_example :
    Contains
      (record archived { status = SessionStatus.needs_reconciliation })
      (handle_divergence in_memory 7
        (record { correlation_id = "c1"; report_id = 300; session_id = 72; similarity_score = 3 })
        none
        gateway_world).1.sessions
    × ((archived.status ≡ SessionStatus.draft_ready)
        ⊎ ((t : SessionStatus)
            → transition_session_status archived.status divergence_detected (some archived.mode)
              ≢ ok t))
divergence_skips_machine_example =
    divergence_skips_machine in_memory 7
      (record { correlation_id = "c1"; report_id = 300; session_id = 72; similarity_score = 3 })
      none gateway_world pending_report archived refl refl refl (omega arith)

abbrev some_payload : Payload
some_payload =
    fields
      (record { json = Json.null; pipeline_execution_id = some (uuid 200); session_id = some 70 })

abbrev message : RawMessage Payload
message = record { content = ok some_payload; msg_id = some "m" }

abbrev refuse : Payload → Action (Unit {0})
refuse _ = throw (plain_error "no")

serve-IsAccountedFor_example :
    IsAccountedFor in_memory
      (λ _. "no")
      (λ p. p)
      500
      "ai.tasks.result"
      some_payload
      refuse
      message
      (serve
        (subscription in_memory (λ _. "no") (λ p. p) 500 "ai.tasks.result" some_payload refuse)
        message
        (λ _ w. w)
        gateway_world)
serve-IsAccountedFor_example =
    serve-IsAccountedFor in_memory (λ _. "no") (λ p. p) 500 "ai.tasks.result" some_payload refuse
      message (λ _ w. w) gateway_world
