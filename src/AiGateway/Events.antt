-- ===== src/AiGateway/Events.antt =====
-- src/core/messaging/events/ai-tasks.event.ts: what the AI service sends, and the rows that its result
-- becomes (src/modules/ai-gateway/handlers/generation-complete.handler.ts).
use back_end.Prelude.{
  ℕ, ◌+◌, String, Bool, true, false, Option, none, some, List, [], ◌∷◌, option_get, option_map,
  if◌then◌else◌,
}
use back_end.Database.Json.{Json, Items, Fields, get_property}
use back_end.Database.Enums.{ActorType, MessageRole, MessageType}
use back_end.Database.PipelineEnums.{GraphType, GraphSource, ComparisonType, DivergenceReportStatus}
use back_end.Database.Entities.{Uuid, Instant, Score, Workflow, WorkflowVersion, Session, Message}
use back_end.Database.PipelineEntities.{KgNode, KgEdge, WorkflowGraphSnapshot, DivergenceReport}
use back_end.World.{Result, ok, err, plain_error}
use back_end.Messaging.Audit.{AuditLogEntryInput}
use back_end.Sessions.Access.{status_json}

-- An empty `org_id` and an empty `pipeline_execution_id` are `none`.
pub record AiTaskResultEvent : Type 0 where
  pub correlation_id : String
  pub session_id : Uuid
  pub org_id : Option Uuid
  pub pipeline_execution_id : Option Uuid
  pub workflow_json : Option Json
  pub elsa_json : Option Json
  pub confidence : Score
  pub summary : Option String
  pub version_number : Option ℕ

-- What the handling of one result draws: the ids of its rows and the time.
pub record Fresh : Type 0 where
  pub version_id : Uuid
  pub message_id : Uuid
  pub intent_id : Uuid
  pub generated_id : Uuid
  pub report_id : Uuid
  pub now : Instant

-- `payload.version_number ?? (currentVersion?.versionNumber ?? 0) + 1`
abbrev pub next_version_number : AiTaskResultEvent → Option WorkflowVersion → ℕ
next_version_number e latest =
    option_get e.version_number
      (option_get (option_map (λ (v : WorkflowVersion). v.version_number) latest) 0 + 1)

abbrev pub version_from_result :
    Fresh → AiTaskResultEvent → Workflow → Session → Option WorkflowVersion → WorkflowVersion
version_from_result fresh e workflow session latest = record {
  id = fresh.version_id;
  workflow_id = workflow.id;
  version_number = next_version_number e latest;
  elements_json = option_get e.workflow_json (Json.object Fields.end);
  elsa_json = e.elsa_json;
  confidence_score = some e.confidence;
  created_by = some session.user_id;
}

abbrev pub result_message : Fresh → AiTaskResultEvent → Session → ℕ → Message
result_message fresh e session version_number = record {
  id = fresh.message_id;
  session_id = session.id;
  role = MessageRole.ai;
  type = MessageType.ai_update;
  content = option_get e.summary "AI pipeline completed and workflow updated";
  metadata = Json.object (
      Fields.field "correlation_id" (Json.text e.correlation_id)
        (Fields.field "version_number" (Json.number version_number) Fields.end));
  created_at = fresh.now;
  archived_at = none;
}

-- The entry of the audit log; the first workflow and session are as they were before.
abbrev pub result_entry : Workflow → Session → Workflow → Session → Score → AuditLogEntryInput
result_entry workflow session workflow' session' confidence = record {
  id = none;
  row = record {
    workflow_id = some workflow.id;
    actor_id = none;
    actor_type = ActorType.ai_agent;
    event_type = "AI_TASK_RESULT_APPLIED";
    element_id = none;
    before_state = some (
        Json.object (
          Fields.field "workflow_current_version" (Json.number workflow.current_version)
            (Fields.field "session_status" (status_json session.status) Fields.end)));
    after_state = some (
        Json.object (
          Fields.field "workflow_current_version" (Json.number workflow'.current_version) (
            Fields.field "session_status" (status_json session'.status)
              (Fields.field "confidence" (Json.number confidence) Fields.end))));
  };
}

-- `Array.isArray(json[key]) ? json[key] : []`
abbrev pub array_property : String → Json → Items
array_property key (Json.object fields) = elim (get_property key fields) [
  | some (Json.array items) ↦ items
  | _ ↦ Items.nil
]
array_property _ _ = Items.nil

-- `typeof value === 'string'`
abbrev pub is_text : Json → Bool
is_text (Json.text _) = true
is_text (Json.uuid _) = true
is_text (Json.instant _) = true
is_text _ = false

abbrev pub modified : Json → Json
modified element_id = Json.object (
    Fields.field "element_id" element_id
      (Fields.field "change_type" (Json.text "modified") Fields.end))

-- An entry of `elements`: the change it counts as, none when it has no id that is a text. `null` has
-- no properties to read.
abbrev pub changed_element : Json → Result (Option Json)
changed_element Json.null =
    err (plain_error "Cannot read properties of null (reading 'element_id')")
changed_element (Json.object fields) = elim (get_property "element_id" fields) [
  | some id ↦ ok (if is_text id then some (modified id) else none)
  | none ↦ ok none
]
changed_element _ = ok none

abbrev pub add_change : Option Json → Items → Items
add_change none items = items
add_change (some change) items = Items.cons change items

abbrev pub changes_of : Items → Result Items
changes_of Items.nil = ok Items.nil
changes_of (Items.cons x xs) =
    let rest = changes_of xs in
    elim (changed_element x) [
      | err e ↦ err e
      | ok change ↦ elim rest [ err e ↦ err e | ok items ↦ ok (add_change change items) ]
    ]

abbrev pub compute_changed_elements : Json → Result Items
compute_changed_elements json = changes_of (array_property "elements" json)

abbrev pub items_length : Items → ℕ
items_length Items.nil = 0
items_length (Items.cons x xs) = items_length xs + 1

abbrev pub node_items : List KgNode → Items
node_items [] = Items.nil
node_items (n ∷ ns) =
    Items.cons
      (Json.object (
        Fields.field "id" (Json.uuid n.id) (
          Fields.field "type" (Json.text n.type) (
            Fields.field "label" (Json.text n.label)
              (Fields.field "inferred" (Json.boolean n.inferred) Fields.end)))))
      (node_items ns)

abbrev pub edge_items : List KgEdge → Items
edge_items [] = Items.nil
edge_items (e ∷ es) =
    Items.cons
      (Json.object (
        Fields.field "id" (Json.uuid e.id) (
          Fields.field "from" (Json.uuid e.from_node_id) (
            Fields.field "to" (Json.uuid e.to_node_id)
              (Fields.field "relationType" (Json.text e.relation_type) Fields.end)))))
      (edge_items es)

-- The graph of what was asked for, from the nodes and edges of the session.
abbrev pub intent_snapshot :
    Fresh → Session → Uuid → List KgNode → List KgEdge → WorkflowGraphSnapshot
intent_snapshot fresh session workflow_id nodes edges = record {
  id = fresh.intent_id;
  workflow_id = workflow_id;
  workflow_version_id = none;
  session_id = some session.id;
  graph_type = GraphType.intent;
  source = GraphSource.ai_extraction;
  nodes = Json.array (node_items nodes);
  edges = Json.array (edge_items edges);
  node_count = items_length (node_items nodes);
  edge_count = items_length (edge_items edges);
  created_by = some session.user_id;
}

-- The graph of what was generated.
abbrev pub generated_snapshot : Fresh → Session → Uuid → WorkflowVersion → WorkflowGraphSnapshot
generated_snapshot fresh session workflow_id version = record {
  id = fresh.generated_id;
  workflow_id = workflow_id;
  workflow_version_id = some version.id;
  session_id = some session.id;
  graph_type = GraphType.generated;
  source = GraphSource.ai_generation;
  nodes = Json.array (array_property "nodes" version.elements_json);
  edges = Json.array (array_property "edges" version.elements_json);
  node_count = items_length (array_property "nodes" version.elements_json);
  edge_count = items_length (array_property "edges" version.elements_json);
  created_by = some session.user_id;
}

abbrev pub divergence_report : Fresh → Uuid → Uuid → DivergenceReport
divergence_report fresh workflow_id pipeline_execution_id = record {
  id = fresh.report_id;
  workflow_id = workflow_id;
  graph_a_id = fresh.intent_id;
  graph_b_id = fresh.generated_id;
  comparison_type = ComparisonType.intent_vs_generated;
  status = DivergenceReportStatus.pending;
  overall_similarity = none;
  severity = none;
  auto_triggered = true;
  triggered_by = none;
  pipeline_execution_id = some pipeline_execution_id;
  completed_at = none;
}
