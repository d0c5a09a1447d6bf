-- ===== src/World/Fixtures.antt =====
-- A small database for tests: two organisations, 1 and 2.
use back_end.Prelude.{String, true, false, none, some, [], ◌∷◌, ℕ, Bool}
use back_end.Database.Json.{Json, Items, Fields}
use back_end.Database.Enums.{
  UserRole, WorkflowStatus, SessionMode, SessionStatus, MessageRole, MessageType,
}
use back_end.Database.Entities.{
  Uuid, Workflow, WorkflowVersion, Session, Message, User, RefreshToken,
}
use back_end.World.State.{World, AiState}

abbrev pub purchase : Workflow
purchase = record {
  id = 50;
  title = "Purchase";
  description = none;
  status = WorkflowStatus.draft;
  current_version = 1;
  org_id = 1;
  owner_id = 10;
  project_id = some 5;
  domain = none;
  tags = [];
  share_token = none;
  share_expires_at = some 40;
  share_max_views = none;
  share_view_count = 0;
}

abbrev pub element : ℕ → String → Json
element id label =
    Json.object
      (Fields.field "id" (Json.uuid id) (Fields.field "label" (Json.text label) Fields.end))

abbrev pub two_elements : Json
two_elements = Json.array (Items.cons (element 1 "ask") (Items.cons (element 2 "pay") Items.nil))

abbrev pub first_version : WorkflowVersion
first_version = record {
  id = 60;
  workflow_id = 50;
  version_number = 1;
  elements_json = two_elements;
  elsa_json = none;
  confidence_score = none;
  created_by = some 10;
}

abbrev pub elicitation : Session
elicitation = record {
  id = 70;
  workflow_id = 50;
  user_id = 10;
  mode = SessionMode.interactive;
  status = SessionStatus.processing;
  confidence_score = 8;
  created_at = 20;
  finalized_at = none;
  archived_at = none;
}

abbrev pub second : Session
second = record elicitation { id = 71; user_id = 12; status = SessionStatus.draft_ready }

abbrev pub question : Message
question = record {
  id = 80;
  session_id = 70;
  role = MessageRole.user;
  type = MessageType.user_input;
  content = "Who pays?";
  metadata = Json.object Fields.end;
  created_at = 21;
  archived_at = none;
}

abbrev pub member : Uuid → UserRole → Uuid → User
member id role org_id = record {
  id = id;
  email = "someone";
  password_hash = "secret";
  role = role;
  org_id = org_id;
  is_verified = true;
  is_active = true;
  invite_token_hash = none;
  invite_expires_at = none;
}

abbrev pub token_of : Uuid → Uuid → RefreshToken
token_of id user_id = record { id = id; user_id = user_id; revoked = false }

abbrev pub no_ai_state : AiState
no_ai_state = record {
  skills = [];
  agent_definitions = [];
  agent_executions = [];
  agent_logs = [];
  dead_letters = [];
  kg_nodes = [];
  kg_edges = [];
  graph_snapshots = [];
  divergence_reports = [];
  handled_results = [];
  handled_progress = [];
  handled_divergences = [];
}

-- The broker takes every message, or none.
abbrev pub office : Bool → World
office up = record {
  users =
      member 10 UserRole.admin 1
      ∷ member 11 UserRole.admin 1
      ∷ member 12 UserRole.viewer 1
      ∷ member 20 UserRole.admin 2
      ∷ [];
  refresh_tokens = token_of 30 11 ∷ token_of 31 12 ∷ [];
  workflows = purchase ∷ [];
  workflow_versions = first_version ∷ [];
  sessions = elicitation ∷ second ∷ [];
  messages = question ∷ [];
  documents = [];
  pipeline_executions = [];
  comments = [];
  rules = [];
  rule_versions = [];
  active_rule_cache = [];
  simulation_cache = [];
  ai = no_ai_state;
  audit_logs = [];
  outbox = [];
  accepts = λ _. up;
}
